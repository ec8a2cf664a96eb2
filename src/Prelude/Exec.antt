-- ===== src/Prelude/Exec.antt =====
-- Go methods that change a state and return an error beside it: what was changed before an error stays.
use mathlib.Core.Path.{◌≡◌, refl, subst}
use dire_agent.Prelude.Results.{Result, ok, err}

abbrev pub Exec {ℓ} : Type 0 → Type 0 → Type ℓ → Type ℓ
Exec S E A = S → Result E A × S

module _ {S E : Type 0} where
  abbrev pub pure {ℓ} : {A : Type ℓ} → A → Exec S E A
  pure value s = (ok value, s)

  abbrev pub throw {ℓ} : {A : Type ℓ} → E → Exec S E A
  throw error s = (err error, s)

  -- A call that does not touch the state.
  abbrev pub lift {ℓ} : {A : Type ℓ} → Result E A → Exec S E A
  lift result s = (result, s)

  abbrev pub read : Exec S E S
  read s = (ok s, s)

  abbrev pub write_state : S → Exec S E (Unit {0})
  write_state next s = (ok tt, next)

  -- The rest of a method, unless the call before returned an error.
  abbrev pub after {ℓ κ} :
      {A : Type ℓ} {B : Type κ} → (A → Exec S E B) → Result E A × S → Result E B × S
  after rest (ok value, s) = rest value s
  after rest (err error, s) = (err error, s)

  infixl 5 ◌>>=◌
  abbrev pub ◌>>=◌ {ℓ κ} : {A : Type ℓ} {B : Type κ} → Exec S E A → (A → Exec S E B) → Exec S E B
  ◌>>=◌ call rest s = after rest (call s)

  infixl 5 ◌>>◌
  abbrev pub ◌>>◌ {ℓ κ} : {A : Type ℓ} {B : Type κ} → Exec S E A → Exec S E B → Exec S E B
  call >> rest = call >>= λ _. rest

-- What is known of the state that a call leaves, and of its error or its value.
pub record Leaves {ℓ κ} {S E : Type 0} {A : Type ℓ} (Bad : E → S → Type κ) (Good : A → S → Type κ)
    (m : Result E A × S) : Type (ℓ ⊔ κ) where
  pub at_error : (e : E) → m.0 ≡ err e → Bad e m.1
  pub at_value : (a : A) → m.0 ≡ ok a → Good a m.1

module _ {ℓ κ} {S E : Type 0} {A : Type ℓ} {Bad : E → S → Type κ} {Good : A → S → Type κ} where
  pub Leaves-ok : (a : A) (s : S) → Good a s → Leaves Bad Good (ok a, s)
  Leaves-ok a s good = record {
    at_error = λ e h. cc;
    at_value = λ b h. let same : a ≡ b = cc in subst (λ v. Good v s) same good;
  }

  pub Leaves-err : (e : E) (s : S) → Bad e s → Leaves Bad Good (err e, s)
  Leaves-err e s bad = record {
    at_error = λ d h. let same : e ≡ d = cc in subst (λ v. Bad v s) same bad;
    at_value = λ b h. cc;
  }

  pub Leaves-result :
      (r : Result E A) (s : S)
      → ((e : E) → r ≡ err e → Bad e s)
      → ((a : A) → r ≡ ok a → Good a s)
      → Leaves Bad Good (r, s)
  Leaves-result r s bad good = record { at_error = bad; at_value = good }

  -- A check before the rest of a method.
  pub Leaves-lift {ι} :
      {C : Type ι} (r : Result E C) (rest : C → Exec S E A) (s : S)
      → ((e : E) → r ≡ err e → Bad e s)
      → ((c : C) → r ≡ ok c → Leaves Bad Good (rest c s))
      → Leaves Bad Good (after rest (r, s))
  Leaves-lift (err e) rest s bad good = Leaves-err e s (bad e refl)
  Leaves-lift (ok c) rest s bad good = good c refl

module _ {ℓ κ} {S E : Type 0} {A : Type ℓ} {Bad Bad' : E → S → Type κ}
    {Good Good' : A → S → Type κ} where
  pub Leaves-map :
      (m : Result E A × S)
      → Leaves Bad Good m
      → ((e : E) (s : S) → Bad e s → Bad' e s)
      → ((a : A) (s : S) → Good a s → Good' a s)
      → Leaves Bad' Good' m
  Leaves-map m h bad good = record {
    at_error = λ e r. bad e m.1 (h.at_error e r);
    at_value = λ a r. good a m.1 (h.at_value a r);
  }

module _ {ℓ κ ι} {S E : Type 0} {A : Type ℓ} {B : Type ι} {Bad Bad' : E → S → Type κ}
    {Good : A → S → Type κ} {Good' : B → S → Type κ} where
  -- A method that goes on after a call.
  pub Leaves-after :
      (m : Result E A × S) (rest : A → Exec S E B)
      → Leaves Bad Good m
      → ((e : E) (s : S) → Bad e s → Bad' e s)
      → ((a : A) (s : S) → Good a s → Leaves Bad' Good' (rest a s))
      → Leaves Bad' Good' (after rest m)
  Leaves-after (err e, s) rest h bad good = Leaves-err e s (bad e s (h.at_error e refl))
  Leaves-after (ok a, s) rest h bad good = good a s (h.at_value a refl)
