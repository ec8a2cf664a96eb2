-- ===== src/Team/WaitLaws.antt =====
-- daemon/subagent_messages.go: whom `selectWaitAgents` selects.
use dire_agent.Prelude.{
  ◌≡◌, ◌⊎◌, refl, sym, Bool, true, false, inl, inr, Option, none, some, List, [], ◌∷◌, arith, All,
  if◌then◌else◌,
}
use mathlib.Core.Path.{subst}
use dire_agent.Prelude.Text.{Text, text_eq, text_eq_refl}
use dire_agent.Prelude.Assoc.{lookup, contains}
use dire_agent.Prelude.Sets.{All-map}
use dire_agent.Prelude.Results.{Result, ok, err, ◌>>=◌}
use dire_agent.Team.Types.{Thread}
use dire_agent.Team.Policy.{Refusal}
use dire_agent.Team.Route.{by_id}
use dire_agent.Team.Wait.{or_outside, select_named, select_wait_agents}

-- A member of the team under one of the IDs, which is not the caller's.
abbrev pub Awaited : Text → List (Text × Thread) → List Text → Thread → Type 0
Awaited caller members ids t =
    (id : Text) × (contains ids id ≡ true)
    × (text_eq id caller ≡ false)
    × (lookup id members ≡ some t)

-- What the first ID of a selection that succeeds leads to.
record Selected (self : Bool) (o : Option Thread) (rest : Result Refusal (List Thread))
    (ts : List Thread) : Type 0 where
  pub thread : Thread
  pub others : List Thread
  pub not_self : self ≡ false
  pub found : o ≡ some thread
  pub remaining : rest ≡ ok others
  pub added : (ts ≡ others) ⊎ (ts ≡ thread ∷ others)

select_step :
    (self : Bool) (o : Option Thread) (dup : Bool) (e : Refusal) (id : Text)
    (rest : Result Refusal (List Thread)) (ts : List Thread)
    → (if self
        then err e
        else (or_outside o id >>= λ t. if dup then rest else (rest >>= λ us. ok (t ∷ us))))
      ≡ ok ts
    → Selected self o rest ts
unfolding or_outside
select_step true o dup e id rest ts h = absurd (cc h)
select_step false none dup e id rest ts h = absurd (cc h)
select_step false (some t) true e id rest ts h = record {
  thread = t;
  others = ts;
  not_self = refl;
  found = refl;
  remaining = h;
  added = inl refl;
}
select_step false (some t) false e id (err x) ts h = absurd (cc h)
select_step false (some t) false e id (ok us) ts h = record {
  thread = t;
  others = us;
  not_self = refl;
  found = refl;
  remaining = refl;
  added = inr (cc h);
}

select_named-All :
    (caller : Text) (members : List (Text × Thread)) (seen ids : List Text) (ts : List Thread)
    → select_named caller members seen ids ≡ ok ts
    → All (Awaited caller members ids) ts
unfolding select_named contains
select_named-All caller members seen [] ts h =
    let none_left : [] ≡ ts = cc h in subst (All (Awaited caller members [])) none_left tt
select_named-All caller members seen (id ∷ ids) ts h =
    let s =
      select_step (text_eq id caller) (lookup id members) (contains seen id) _ id
        (select_named caller members (id ∷ seen) ids) ts h in
    let others : All (Awaited caller members (id ∷ ids)) s.others =
      All-map s.others (λ t a. (a.0, ground arith, a.2, a.3))
        (select_named-All caller members (id ∷ seen) ids s.others s.remaining) in
    let here : Awaited caller members (id ∷ ids) s.thread =
      (id, ground (arith, text_eq_refl id), s.not_self, s.found) in
    elim s.added [
      | inl e ↦ subst (All (Awaited caller members (id ∷ ids))) (sym e) others
      | inr e ↦ subst (All (Awaited caller members (id ∷ ids))) (sym e) (here, others)
    ]

-- An agent that names whom it waits for waits for these only: where the selection succeeds, each
-- selected agent is the member of the team under one of the IDs, and none of these IDs is the
-- caller's own.
pub select_wait_agents-All :
    (caller : Text) (agents : List Thread) (id : Text) (ids : List Text) (ts : List Thread)
    → select_wait_agents caller agents (id ∷ ids) ≡ some (ok ts)
    → All (Awaited caller (by_id agents) (id ∷ ids)) ts
unfolding select_wait_agents
select_wait_agents-All caller agents id ids ts h =
    select_named-All caller (by_id agents) [] (id ∷ ids) ts (cc h)
