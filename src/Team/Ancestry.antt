-- ===== src/Team/Ancestry.antt =====
-- daemon/subagent_messages.go: `isAncestor` and the parent IDs of a team.
use dire_agent.Prelude.{
  ℕ, zero, suc, ◌<◌, ◌≡◌, ◌↔◌, refl, Bool, true, false, Bool-cases, ◌⊎◌, Option, none, some, List,
  arith, inl, inr,
}
use mathlib.Core.Bool.{false≢true}
use mathlib.Core.Path.{subst}
use dire_agent.Prelude.Text.{Text, text_eq, text_eq_iff, text_eq→eq, is_empty}
use dire_agent.Prelude.Assoc.{lookup}
use dire_agent.Team.Types.{Thread}
use dire_agent.Team.Route.{ancestor_loop, is_ancestor, start_loop}

-- The parent IDs lead from a thread to the ancestor.
pub data Ancestor (members : List (Text × Thread)) (ancestor : Text) : Thread → Type 0 where
  parent :
      {t : Thread}
      → is_empty t.parent_id ≡ false
      → t.parent_id ≡ ancestor
      → Ancestor members ancestor t
  higher :
      {t p : Thread}
      → is_empty t.parent_id ≡ false
      → lookup t.parent_id members ≡ some p
      → Ancestor members ancestor p
      → Ancestor members ancestor t

-- Each thread stands under its ID, and its parent is less deep.
pub record IsTeam (members : List (Text × Thread)) : Type 0 where
  pub keyed : (k : Text) (t : Thread) → lookup k members ≡ some t → t.id ≡ k
  pub ranked :
      (k : Text) (t p : Thread)
      → lookup k members ≡ some t
      → is_empty t.parent_id ≡ false
      → lookup t.parent_id members ≡ some p
      → p.depth < t.depth

module _ (members : List (Text × Thread)) (team : IsTeam members) (a : Text) where
  -- With fuel beyond the depth the loop ends, and its answer is right in both directions.
  abbrev Decides : Thread → Bool → Type 0
  Decides t b = (b ≡ true → Ancestor members a t) × (Ancestor members a t → b ≡ true)

  not-parent :
      (p t : Thread) (k : Text)
      → lookup k members ≡ some t
      → lookup t.parent_id members ≡ some p
      → p.depth < t.depth
      → text_eq p.id t.id ≡ false
  not-parent p t k f g deep = elim (Bool-cases (text_eq p.id t.id)) [
    | inl e ↦
        let same = text_eq→eq p.id t.id e in
        absurd (ground (arith, team.keyed k t f, team.keyed t.parent_id p g))
    | inr e ↦ e
  ]

  -- A loop that ended, with the right answer.
  abbrev Ended : Thread → Option Bool → Type 0
  Ended t o = (b : Bool) × (o ≡ some b) × Decides t b

  no-parent : (t : Thread) → is_empty t.parent_id ≡ true → Ancestor members a t → false ≡ true
  no-parent t e (parent ne same) = cc
  no-parent t e (higher ne found up) = cc

  above :
      (t : Thread)
      → Ancestor members a t
      → (t.parent_id ≡ a)
        ⊎ ((p : Thread) × (lookup t.parent_id members ≡ some p) × Ancestor members a p)
  above t (parent ne same) = inl same
  above t (higher {p} ne found up) = inr (p, found, up)

  no-hit : (t : Thread) → text_eq t.parent_id a ≡ false → t.parent_id ≡ a → false ≡ true
  no-hit t miss e = ground (arith, text_eq_iff t.parent_id a)

  -- Past the parent itself the answers agree.
  Decides-step :
      (t p : Thread) (b : Bool)
      → is_empty t.parent_id ≡ false
      → lookup t.parent_id members ≡ some p
      → text_eq t.parent_id a ≡ false
      → Decides p b
      → Decides t b
  Decides-step t p b ne g miss (sound, complete) =
      (λ h. higher ne g (sound h), λ up. back (above t up))
    where
      back :
          ((t.parent_id ≡ a)
            ⊎ ((q : Thread) × (lookup t.parent_id members ≡ some q) × Ancestor members a q))
          → b ≡ true
      back (inl e) = absurd (false≢true (no-hit t miss e))
      back (inr (q, found, up)) =
          let same : q ≡ p = cc (found, g) in complete (subst (Ancestor members a) same up)

  Decides-none :
      (t : Thread)
      → lookup t.parent_id members ≡ none
      → text_eq t.parent_id a ≡ false
      → Decides t false
  Decides-none t g miss = (λ h. absurd (false≢true h), λ up. back (above t up))
    where
      back :
          ((t.parent_id ≡ a)
            ⊎ ((q : Thread) × (lookup t.parent_id members ≡ some q) × Ancestor members a q))
          → false ≡ true
      back (inl e) = no-hit t miss e
      back (inr (q, found, up)) = cc

  loop-Ended :
      (fuel : ℕ) (t : Thread) (k : Text)
      → lookup k members ≡ some t
      → t.depth < fuel
      → Ended t (ancestor_loop fuel a t members)
  unfolding ancestor_loop
  loop-Ended zero t k f deep = absurd (omega arith)
  loop-Ended (suc fuel) t k f deep = elim (Bool-cases (is_empty t.parent_id)) [
    | inl e ↦ (false, rw e, (λ h. absurd (cc), no-parent t e))
    | inr ne ↦ elim (Bool-cases (text_eq t.parent_id a)) [
      | inl hit ↦ (true, rw (ne, hit), (λ h. parent ne (text_eq→eq t.parent_id a hit), λ up. refl))
      | inr miss ↦ step (λ p j. loop-Ended fuel p j) (lookup t.parent_id members) refl ne miss
    ]
  ]
    where
      step :
          ((p : Thread) (j : Text)
            → lookup j members ≡ some p
            → p.depth < fuel
            → Ended p (ancestor_loop fuel a p members))
          → (o : Option Thread) → lookup t.parent_id members ≡ o
          → is_empty t.parent_id ≡ false
          → text_eq t.parent_id a ≡ false
          → Ended t (ancestor_loop (suc fuel) a t members)
      step rec none g ne miss = (false, rw (ne, miss, g, ancestor_loop), Decides-none t g miss)
      step rec (some p) g ne miss =
          let below = team.ranked k t p f ne g in
          let (b, e, d) = rec p t.parent_id g (omega arith) in
          (
            b,
            rw (ne, miss, g, ancestor_loop) (rw (not-parent p t k f g below) e),
            Decides-step t p b ne g miss d,
          )

start_loop-some :
    (a : Text) (members : List (Text × Thread)) (o : Option Thread) (t : Thread) (b : Bool)
    → o ≡ some t
    → ancestor_loop (suc t.depth) a t members ≡ some b
    → start_loop a o members ≡ some b
unfolding start_loop
start_loop-some a members none t b h e = cc
start_loop-some a members (some u) t b h e =
    let same : t ≡ u = cc h in subst (λ v. ancestor_loop (suc v.depth) a v members ≡ some b) same e

-- Where each thread stands under its ID and each parent is less deep, the loop of `isAncestor` ends
-- for every thread of the team, within one round more than the thread's depth; and it answers true
-- exactly for those that the parent IDs lead from to the ancestor.
pub is_ancestor-Ancestor :
    (members : List (Text × Thread)) (a d : Text) (t : Thread)
    → IsTeam members
    → lookup d members ≡ some t
    → (b : Bool) × (is_ancestor a d members ≡ some b) × ((b ≡ true) ↔ Ancestor members a t)
unfolding is_ancestor
is_ancestor-Ancestor members a d t team f =
    let (b, e, dec) = loop-Ended members team a (suc t.depth) t d f (omega arith) in
    (b, start_loop-some a members (lookup d members) t b f e, (dec.0, dec.1))

-- In a team the loop ends from every ID.
pub is_ancestor-returns :
    (members : List (Text × Thread)) (a d : Text)
    → IsTeam members
    → (b : Bool) × (is_ancestor a d members ≡ some b)
is_ancestor-returns members a d team = from_lookup (lookup d members) refl
  where
    from_lookup :
        (o : Option Thread) → lookup d members ≡ o → (b : Bool) × (is_ancestor a d members ≡ some b)
    from_lookup none e = (false, unfold is_ancestor start_loop in rw e refl)
    from_lookup (some t) e =
        let (b, same, exact) = is_ancestor-Ancestor members a d t team e in (b, same)
