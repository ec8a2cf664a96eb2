-- ===== src/Team/Grants.antt =====
-- daemon/subagent_permissions.go: the tools of a subagent, narrowed again by every ancestor.
use dire_agent.Prelude.{
  ℕ, zero, suc, ◌≡◌, refl, sym, Bool, true, false, ◌&&◌, Bool-cases, not, Option, some, List, [],
  ◌∷◌, arith, All, inl, inr, if◌then◌else◌,
}
use mathlib.Core.Path.{subst}
use dire_agent.Prelude.Text.{Text, is_empty}
use dire_agent.Prelude.Assoc.{contains}
use dire_agent.Prelude.Sets.{
  select, Sub, Sub-refl, Sub-trans, All-map, All-Sub, select-All, select-Sub,
}
use dire_agent.Prelude.Results.{Result, ok, err, ◌>>=◌, >>=-eq-ok}
use dire_agent.Team.Types.{Thread, is_subagent}
use dire_agent.Team.Policy.{Refusal, unknown_thread, ancestry_too_deep, ancestry_cycle}
use dire_agent.Team.Spawn.{find_thread, or_refuse, builtin_names}

-- `narrowLocalTools`: a built-in tool must be in the local list.
unfoldable pub narrow_local_tools : List Text → List Text → List Text
unfolding select contains
narrow_local_tools local =
    select (λ name. not (contains builtin_names name && not (contains local name)))

-- What an ancestor leaves of the tools.
unfoldable pub narrow_by : Thread → List Text → List Text
unfolding narrow_local_tools
narrow_by parent allowed =
    narrow_local_tools parent.tools
      (if is_subagent parent then select (contains parent.agent_tools) allowed else allowed)

-- `threadMetadata` of the parent, unless it was visited.
unfoldable pub next_ancestor : List Thread → Thread → List Text → Result Refusal Thread
unfolding contains find_thread or_refuse
next_ancestor store current visited =
    if contains visited current.parent_id
    then err ancestry_cycle
    else or_refuse (find_thread current.parent_id store) (unknown_thread current.parent_id)

-- The loop over the ancestors; the number is 128 less `depth`.
unfoldable pub climb : List Thread → ℕ → Thread → List Text → List Text → Result Refusal (List Text)
climb store zero current visited allowed =
    if is_empty current.parent_id then ok allowed else err ancestry_too_deep
climb store (suc left) current visited allowed =
    let rest = next_ancestor store current visited >>= λ parent.
    climb store left parent (current.parent_id ∷ visited) (narrow_by parent allowed) in
    if is_empty current.parent_id then ok allowed else rest

abbrev pub ancestry_limit : ℕ
ancestry_limit = 128

unfoldable pub effective_subagent_tools : List Thread → Thread → Result Refusal (List Text)
unfolding climb next_ancestor narrow_by
effective_subagent_tools store t =
    climb store ancestry_limit t (t.id ∷ []) (narrow_local_tools t.tools t.agent_tools)
    >>= λ allowed. ok (select (contains allowed) t.agent_tools)

-- The threads that the parent IDs lead to.
pub data Above (store : List Thread) : Thread → Thread → Type 0 where
  parent :
      {t p : Thread}
      → is_empty t.parent_id ≡ false
      → find_thread t.parent_id store ≡ some p
      → Above store t p
  further :
      {t p a : Thread}
      → is_empty t.parent_id ≡ false
      → find_thread t.parent_id store ≡ some p
      → Above store p a
      → Above store t a

-- A built-in tool is enabled in the thread's local tools.
abbrev pub Local : Thread → Text → Type 0
Local a x = (contains builtin_names x && not (contains a.tools x)) ≡ false

-- The grant of a subagent; a root has none.
abbrev Grant : Bool → List Text → List Text → Type 0
Grant false granted xs = Unit
Grant true granted xs = Sub xs granted

-- What a thread permits: its grant, where it is a subagent, and no built-in tool that is disabled
-- there.
abbrev pub Permits : Thread → List Text → Type 0
Permits a xs = Grant (is_subagent a) a.agent_tools xs × All (Local a) xs

Grant-Sub : (b : Bool) (g xs ys : List Text) → Sub xs ys → Grant b g ys → Grant b g xs
Grant-Sub false g xs ys s h = tt
Grant-Sub true g xs ys s h = Sub-trans xs ys g s h

Permits-Sub : (a : Thread) (xs ys : List Text) → Sub xs ys → Permits a ys → Permits a xs
Permits-Sub a xs ys s (g, l) =
    (Grant-Sub (is_subagent a) a.agent_tools xs ys s g, All-Sub (Local a) xs ys s l)

narrow_local_tools-All :
    (a : Thread) (xs : List Text) → All (Local a) (narrow_local_tools a.tools xs)
unfolding narrow_local_tools
narrow_local_tools-All a xs =
    All-map (narrow_local_tools a.tools xs) (λ x e. ground arith) (select-All _ xs)

narrow_local_tools-Sub : (local xs : List Text) → Sub (narrow_local_tools local xs) xs
unfolding narrow_local_tools
narrow_local_tools-Sub local xs = select-Sub _ xs

grant_select : Bool → Thread → List Text → List Text
grant_select b a xs = if b then select (contains a.agent_tools) xs else xs

grant_select-Sub : (b : Bool) (a : Thread) (xs : List Text) → Sub (grant_select b a xs) xs
unfolding grant_select
grant_select-Sub true a xs = select-Sub _ xs
grant_select-Sub false a xs = Sub-refl xs

grant_select-Grant :
    (b : Bool) (a : Thread) (xs : List Text) → Grant b a.agent_tools (grant_select b a xs)
unfolding grant_select
grant_select-Grant true a xs = select-All (contains a.agent_tools) xs
grant_select-Grant false a xs = tt

narrow_by-Sub : (a : Thread) (xs : List Text) → Sub (narrow_by a xs) xs
unfolding narrow_by grant_select
narrow_by-Sub a xs =
    let own = grant_select (is_subagent a) a xs in
    Sub-trans (narrow_local_tools a.tools own) own xs (narrow_local_tools-Sub a.tools own)
      (grant_select-Sub (is_subagent a) a xs)

narrow_by-Permits : (a : Thread) (xs : List Text) → Permits a (narrow_by a xs)
unfolding narrow_by grant_select
narrow_by-Permits a xs =
    let own = grant_select (is_subagent a) a xs in
    (
      Grant-Sub (is_subagent a) a.agent_tools (narrow_local_tools a.tools own) own
          (narrow_local_tools-Sub a.tools own) (grant_select-Grant (is_subagent a) a xs),
      narrow_local_tools-All a own,
    )

-- One step of a climb that succeeds: it has arrived, or goes on from the parent.
data Climbed (store : List Thread) (left : ℕ) (t : Thread) (visited allowed xs : List Text)
    : Type 0 where
  arrived : is_empty t.parent_id ≡ true → xs ≡ allowed → Climbed store left t visited allowed xs
  onward :
      (p : Thread) (less : ℕ)
      → left ≡ suc less
      → find_thread t.parent_id store ≡ some p
      → climb store less p (t.parent_id ∷ visited) (narrow_by p allowed) ≡ ok xs
      → Climbed store left t visited allowed xs

next_ancestor-ok :
    (store : List Thread) (t p : Thread) (visited : List Text)
    → next_ancestor store t visited ≡ ok p
    → find_thread t.parent_id store ≡ some p
unfolding next_ancestor or_refuse
next_ancestor-ok store t p visited h = ground arith

climb-Climbed :
    (store : List Thread) (left : ℕ) (t : Thread) (visited allowed xs : List Text)
    → climb store left t visited allowed ≡ ok xs
    → Climbed store left t visited allowed xs
unfolding climb
climb-Climbed store zero t visited allowed xs h = elim (Bool-cases (is_empty t.parent_id)) [
  | inl e ↦ arrived e (ground arith)
  | inr e ↦ absurd (ground arith)
]
climb-Climbed store (suc left) t visited allowed xs h = elim (Bool-cases (is_empty t.parent_id)) [
  | inl e ↦ arrived e (ground arith)
  | inr e ↦
      let (p, found, rest) = >>=-eq-ok (next_ancestor store t visited) _ (rw e at h) in
      onward p left refl (next_ancestor-ok store t p visited found) rest
]

climb-Sub :
    (store : List Thread) (left : ℕ) (t : Thread) (visited allowed xs : List Text)
    → Climbed store left t visited allowed xs
    → Sub xs allowed
climb-Sub store left t visited allowed xs (arrived e same) =
    subst (λ zs. Sub zs allowed) (sym same) (Sub-refl allowed)
climb-Sub store zero t visited allowed xs (onward p less e found rest) = absurd (omega arith)
climb-Sub store (suc left) t visited allowed xs (onward p less e found rest) =
    let h =
      subst (λ k. climb store k p (t.parent_id ∷ visited) (narrow_by p allowed) ≡ ok xs)
        (omega arith) rest in
    Sub-trans xs (narrow_by p allowed) allowed
      (climb-Sub store left p _ (narrow_by p allowed) xs (climb-Climbed store left p _ _ xs h))
      (narrow_by-Sub p allowed)

-- The parent that was found is the parent.
same_parent : (o : Option Thread) (p q : Thread) → o ≡ some p → o ≡ some q → p ≡ q
same_parent o p q e f = cc

climb-Permits :
    (store : List Thread) (left : ℕ) (t a : Thread) (visited allowed xs : List Text)
    → Climbed store left t visited allowed xs
    → Above store t a
    → Permits a xs
climb-Permits store left t a visited allowed xs (arrived e same) (parent ne found) = absurd (cc)
climb-Permits store left t a visited allowed xs (arrived e same) (further ne found up) = absurd (cc)
climb-Permits store zero t a visited allowed xs (onward p less e found rest) up =
    absurd (omega arith)
climb-Permits store (suc left) t a visited allowed xs (onward p less e found rest) up =
    let h =
      subst (λ k. climb store k p (t.parent_id ∷ visited) (narrow_by p allowed) ≡ ok xs)
        (omega arith) rest in
    let climbed = climb-Climbed store left p _ (narrow_by p allowed) xs h in
    above climbed (λ b. climb-Permits store left p b _ _ xs climbed) up
  where
    above :
        Climbed store left p (t.parent_id ∷ visited) (narrow_by p allowed) xs
        → ((b : Thread) → Above store p b → Permits b xs)
        → Above store t a
        → Permits a xs
    above climbed higher (parent ne f) =
        subst (λ b. Permits b xs) (same_parent _ p a found f)
          (Permits-Sub p xs (narrow_by p allowed) (climb-Sub store left p _ _ xs climbed)
            (narrow_by-Permits p allowed))
    above climbed higher (further {p = q} ne f up') =
        higher a (subst (λ b. Above store b a) (sym (same_parent _ p q found f)) up')

-- The tools of a subagent, where they are found, are among those that it was granted when it was
-- spawned, and every thread above it permits them: each ancestor that is a subagent was granted them,
-- and each has those of them that are built in among its local tools; and so has the subagent itself.
pub effective_subagent_tools-Permits :
    (store : List Thread) (t a : Thread) (xs : List Text)
    → effective_subagent_tools store t ≡ ok xs
    → Above store t a
    → Sub xs t.agent_tools × All (Local t) xs × Permits a xs
unfolding effective_subagent_tools
effective_subagent_tools-Permits store t a xs h up =
    let start = narrow_local_tools t.tools t.agent_tools in
    let (allowed, e, same) = >>=-eq-ok (climb store ancestry_limit t (t.id ∷ []) start) _ h in
    let climbed = climb-Climbed store ancestry_limit t (t.id ∷ []) start allowed e in
    let chosen = select (contains allowed) t.agent_tools in
    let sub : Sub chosen allowed = select-All (contains allowed) t.agent_tools in
    let result : Sub chosen t.agent_tools × All (Local t) chosen × Permits a chosen = (
      select-Sub (contains allowed) t.agent_tools,
      All-Sub (Local t) chosen start
          (Sub-trans chosen allowed start sub
            (climb-Sub store ancestry_limit t _ start allowed climbed))
          (narrow_local_tools-All t t.agent_tools),
      Permits-Sub a chosen allowed sub
          (climb-Permits store ancestry_limit t a _ start allowed climbed up),
    ) in
    subst (λ zs. Sub zs t.agent_tools × All (Local t) zs × Permits a zs) (cc same) result
