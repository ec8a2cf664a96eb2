-- ===== src/Team/Narrowing.antt =====
-- daemon/subagents.go: `narrowAgentTools` and what a child is granted.
use dire_agent.Prelude.{
  ◌≡◌, refl, ap, sym, Bool, true, false, ◌||◌, not, Option, none, some, List, [], ◌∷◌, map, arith,
  if◌then◌else◌,
}
use mathlib.Core.Path.{subst}
use dire_agent.Prelude.Text.{Text, trim_space, is_empty}
use dire_agent.Prelude.Assoc.{contains}
use dire_agent.Prelude.Sets.{Sub, Sub-refl, Sub-trans, select-All, select-Sub, sort_strings-Sub}
use dire_agent.Prelude.Results.{Result, ok, err, ◌>>=◌}
use dire_agent.Team.Types.{Thread, AgentProfile, Kind, project, chat}
use dire_agent.Team.Policy.{Refusal}
use dire_agent.Team.Tools.{base_tools, take_requested, restrict, narrow_for, narrow_agent_tools}

-- A list that is given limits the grant.
abbrev pub Limits : Option (List Text) → List Text → Type 0
Limits none xs = Unit
Limits (some ys) xs = Sub xs ys

-- No name stands twice, and none is in `seen`.
abbrev pub Distinct : List Text → List Text → Type 0
Distinct seen [] = Unit
Distinct seen (x ∷ xs) = (contains seen x ≡ false) × Distinct (x ∷ seen) xs

-- A request that is given is granted whole: its names, trimmed, none of them empty or repeated.
abbrev pub Grants : Option (List Text) → List Text → Type 0
Grants none xs = Unit
Grants (some names) xs = (xs ≡ map trim_space names) × Distinct [] xs

step-ok :
    (empty ungranted : Bool) (e e' : Refusal) (t : Text) (rest : Result Refusal (List Text))
    (xs : List Text)
    → (if empty then err e else if ungranted then err e' else (rest >>= λ taken. ok (t ∷ taken)))
      ≡ ok xs
    → (ys : List Text) × (empty ≡ false) × (ungranted ≡ false) × (rest ≡ ok ys) × (xs ≡ t ∷ ys)
step-ok true ungranted e e' t rest xs h = cc
step-ok false true e e' t rest xs h = cc
step-ok false false e e' t (err m) xs h = cc
step-ok false false e e' t (ok ys) xs h = (ys, refl, refl, refl, cc h)

-- What a successful request takes.
abbrev Taken : List Text → List Text → List Text → List Text → Type 0
Taken granted seen names xs = Sub xs granted × (xs ≡ map trim_space names) × Distinct seen xs

take_requested-Taken :
    (granted seen names xs : List Text)
    → take_requested granted seen names ≡ ok xs
    → Taken granted seen names xs
unfolding take_requested
take_requested-Taken granted seen [] xs h = subst (Taken granted seen []) (cc h) (tt, refl, tt)
take_requested-Taken granted seen (name ∷ names) xs h =
    let t = trim_space name in
    let (ys, fresh, held, rest, e) =
      step-ok (is_empty t || contains seen t) (not (contains granted t)) _ _ t
        (take_requested granted (t ∷ seen) names) xs h in
    let (sub, same, distinct) = take_requested-Taken granted (t ∷ seen) names ys rest in
    let taken : Taken granted seen (name ∷ names) (t ∷ ys) =
      ((ground arith, sub), ap (◌∷◌ t) same, (ground arith, distinct)) in
    subst (Taken granted seen (name ∷ names)) (sym e) taken

base_tools-Sub : (pt : List Text) (o : Option (List Text)) → Sub (base_tools pt o) pt
unfolding base_tools
base_tools-Sub pt none = sort_strings-Sub pt
base_tools-Sub pt (some names) = select-All (contains pt) names

base_tools-Limits : (pt : List Text) (o : Option (List Text)) → Limits o (base_tools pt o)
unfolding base_tools
base_tools-Limits pt none = tt
base_tools-Limits pt (some names) = select-Sub (contains pt) names

Limits-trans : (o : Option (List Text)) (xs ys : List Text) → Sub xs ys → Limits o ys → Limits o xs
Limits-trans none xs ys s l = tt
Limits-trans (some zs) xs ys s l = Sub-trans xs ys zs s l

restrict-ok :
    (base : List Text) (o : Option (List Text)) (xs : List Text)
    → restrict base o ≡ ok xs
    → Sub xs base × Grants o xs
unfolding restrict
restrict-ok base none xs h = (subst (λ zs. Sub zs base) (cc h) (Sub-refl base), tt)
restrict-ok base (some names) xs h =
    let (sub, same, distinct) = take_requested-Taken base [] names xs h in (sub, (same, distinct))

-- What a child is granted.
abbrev pub Granted : List Text → AgentProfile → Option (List Text) → List Text → Type 0
Granted parent_tools profile requested xs =
    Sub xs parent_tools × Limits profile.tools xs × Grants requested xs

chat-Granted :
    (pt : List Text) (profile : AgentProfile) (o : Option (List Text)) (xs : List Text)
    → narrow_for chat pt profile o ≡ ok xs
    → Granted pt profile o xs
unfolding narrow_for
chat-Granted pt profile none xs h =
    subst (Granted pt profile none) (cc h) (tt, nothing profile.tools, tt)
  where
    nothing : (o : Option (List Text)) → Limits o []
    nothing none = tt
    nothing (some ys) = tt
chat-Granted pt profile (some []) xs h =
    subst (Granted pt profile (some [])) (cc h) (tt, nothing profile.tools, (refl, tt))
  where
    nothing : (o : Option (List Text)) → Limits o []
    nothing none = tt
    nothing (some ys) = tt
chat-Granted pt profile (some (n ∷ names)) xs h = cc

narrow_for-Granted :
    (k : Kind) (pt : List Text) (profile : AgentProfile) (o : Option (List Text)) (xs : List Text)
    → narrow_for k pt profile o ≡ ok xs
    → Granted pt profile o xs
narrow_for-Granted chat pt profile o xs h = chat-Granted pt profile o xs h
narrow_for-Granted project pt profile o xs h =
    let base = base_tools pt profile.tools in
    let (sub, grants) = restrict-ok base o xs (unfold narrow_for in h) in
    (
      Sub-trans xs base pt sub (base_tools-Sub pt profile.tools),
      Limits-trans profile.tools xs base sub (base_tools-Limits pt profile.tools),
      grants,
    )

-- What is narrowed without a refusal is a subset of the parent's tools and, where the profile lists
-- tools, of those; and where the request lists tools, exactly these, trimmed and each once.
pub narrow_agent_tools-Granted :
    (parent : Thread) (parent_tools : List Text) (profile : AgentProfile)
    (requested : Option (List Text)) (xs : List Text)
    → narrow_agent_tools parent parent_tools profile requested ≡ ok xs
    → Granted parent_tools profile requested xs
unfolding narrow_agent_tools
narrow_agent_tools-Granted parent pt profile o xs h =
    narrow_for-Granted parent.kind pt profile o xs h
