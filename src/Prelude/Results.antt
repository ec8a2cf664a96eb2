-- ===== src/Prelude/Results.antt =====
-- A Go pair (value, error) of which exactly one part counts.
use mathlib.Core.Path.{◌≡◌, refl}
use mathlib.Core.Logic.{◌⊎◌, inl, inr}
use mathlib.Core.Bool.{Bool, true, false}

pub data Result {ℓ} (E : Type 0) (A : Type ℓ) : Type ℓ where
  err : (error : E) → Result E A
  ok : (value : A) → Result E A

module _ {E : Type 0} where
  -- `if test { return err }`.
  abbrev pub fail_if : Bool → E → Result E (Unit {0})
  fail_if true e = err e
  fail_if false e = ok tt

  -- `if err != nil { return err }` behind each call.
  infixl 5 ◌>>=◌
  abbrev pub ◌>>=◌ {ℓ κ} : {A : Type ℓ} {B : Type κ} → Result E A → (A → Result E B) → Result E B
  err e >>= rest = err e
  ok value >>= rest = rest value

  infixl 5 ◌>>◌
  abbrev pub ◌>>◌ {ℓ} : {B : Type ℓ} → Result E (Unit {0}) → Result E B → Result E B
  check >> rest = check >>= λ passed. rest

  -- A chain of calls succeeds only if its first call does.
  pub >>=-eq-ok {ℓ κ} :
      {A : Type ℓ} {B : Type κ} (first : Result E A) (rest : A → Result E B) {last : B}
      → (first >>= rest) ≡ ok last
      → (value : A) × (first ≡ ok value) × (rest value ≡ ok last)
  >>=-eq-ok (err e) rest success = cc
  >>=-eq-ok (ok value) rest success = (value, refl, success)

  pub >>-ok {ℓ} :
      {B : Type ℓ} (check : Result E (Unit {0})) (rest : Result E B) (last : B)
      → (check >> rest) ≡ ok last
      → (check ≡ ok tt) × (rest ≡ ok last)
  >>-ok (err e) rest last h = cc
  >>-ok (ok tt) rest last h = (refl, h)

  pub fail_if-ok : (b : Bool) (e : E) (u : Unit {0}) → fail_if b e ≡ ok u → b ≡ false
  fail_if-ok true e u h = cc
  fail_if-ok false e u h = refl

  pub Result-cases {ℓ} :
      {A : Type ℓ} (r : Result E A) → ((e : E) × (r ≡ err e)) ⊎ ((a : A) × (r ≡ ok a))
  Result-cases (err e) = inl (e, refl)
  Result-cases (ok a) = inr (a, refl)
