-- ===== src/Prelude/Assoc.antt =====
-- Go maps keyed by strings as association lists: the first entry of a key counts.
use mathlib.Core.Path.{◌≡◌, refl}
use mathlib.Core.Bool.{Bool, false, ◌||◌}
use mathlib.Core.Option.{Option, none, some}
use mathlib.Core.List.{List, [], ◌∷◌}
use native.Mathlib.Omega.{arith}
use dire_agent.Prelude.Tests.{if◌then◌else◌}
use dire_agent.Prelude.Lists.{All}
use dire_agent.Prelude.Text.{Text, text_eq, text_eq_iff, text_eq_refl}

module _ {ℓ} {V : Type ℓ} where
  unfoldable pub lookup : Text → List (Text × V) → Option V
  lookup k [] = none
  lookup k ((j, v) ∷ m) = if text_eq j k then some v else lookup k m

  -- `m[k] = v`.
  unfoldable pub insert : Text → V → List (Text × V) → List (Text × V)
  insert k v [] = (k, v) ∷ []
  insert k v ((j, w) ∷ m) = if text_eq j k then (k, v) ∷ m else (j, w) ∷ insert k v m

  -- `delete(m, k)`.
  unfoldable pub delete : Text → List (Text × V) → List (Text × V)
  delete k [] = []
  delete k ((j, w) ∷ m) = if text_eq j k then delete k m else (j, w) ∷ delete k m

  pub lookup-insert :
      (k j : Text) (v : V) (m : List (Text × V))
      → lookup j (insert k v m) ≡ (if text_eq k j then some v else lookup j m)
  unfolding lookup insert
  lookup-insert k j v [] = refl
  lookup-insert k j v ((i, w) ∷ m) =
      ground (arith, text_eq_iff k j, text_eq_iff i k, text_eq_iff i j, lookup-insert k j v m)

  pub lookup-delete :
      (k j : Text) (m : List (Text × V))
      → lookup j (delete k m) ≡ (if text_eq k j then none else lookup j m)
  unfolding lookup delete
  lookup-delete k j [] = ground arith
  lookup-delete k j ((i, w) ∷ m) =
      ground (arith, text_eq_iff k j, text_eq_iff i k, text_eq_iff i j, lookup-delete k j m)

-- `contains(values, wanted)`, and a lookup in a `map[string]bool`.
unfoldable pub contains : List Text → Text → Bool
contains [] k = false
contains (x ∷ xs) k = text_eq x k || contains xs k

unfoldable pub keys {ℓ} : {V : Type ℓ} → List (Text × V) → List Text
keys [] = []
keys ((k, v) ∷ m) = k ∷ keys m

-- A Go map has each key once.
abbrev pub Unique {ℓ} : {V : Type ℓ} → List (Text × V) → Type 0
Unique [] = Unit
Unique ((k, v) ∷ m) = (contains (keys m) k ≡ false) × Unique m

module _ {ℓ} {V : Type ℓ} where
  -- Each entry of `es` is found in `m`.
  abbrev pub Finds : List (Text × V) → List (Text × V) → Type ℓ
  Finds m = All (λ e. lookup e.0 m ≡ some e.1)

  Finds-cons :
      (k : Text) (v : V) (m es : List (Text × V))
      → contains (keys es) k ≡ false
      → Finds m es
      → Finds ((k, v) ∷ m) es
  unfolding contains keys lookup
  Finds-cons k v m [] h f = tt
  Finds-cons k v m ((j, w) ∷ es) h (fj, f) =
      (ground (arith, text_eq_iff j k, text_eq_iff k j), Finds-cons k v m es (ground arith) f)

  pub Finds-self : (m : List (Text × V)) → Unique m → Finds m m
  unfolding lookup
  Finds-self [] u = tt
  Finds-self ((k, v) ∷ m) (fresh, u) =
      (rw (text_eq_refl k), Finds-cons k v m m fresh (Finds-self m u))
