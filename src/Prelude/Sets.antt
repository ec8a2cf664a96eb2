-- ===== src/Prelude/Sets.antt =====
-- Lists of names read as sets.
use mathlib.Core.Path.{◌≡◌, refl, sym, ◌∙◌, ap}
use mathlib.Core.Bool.{Bool, true, ◌||◌}
use mathlib.Core.Logic.{inl, inr}
use mathlib.Core.List.{List, [], ◌∷◌}
use native.Mathlib.Omega.{arith}
use dire_agent.Prelude.Tests.{if◌then◌else◌, Bool-cases}
use dire_agent.Prelude.Lists.{All}
use dire_agent.Prelude.Text.{Text, text_eq, text_eq_refl, text_eq→eq}
use dire_agent.Prelude.Assoc.{contains}
use dire_agent.Prelude.Sort.{sort_strings, insert_sorted, text_le}
use mathlib.Core.Path.{subst}

-- The entries that `keep` holds, in their order.
unfoldable pub select : (Text → Bool) → List Text → List Text
select keep [] = []
select keep (x ∷ xs) = if keep x then x ∷ select keep xs else select keep xs

-- Every entry of the first list is in the second.
abbrev pub Sub : List Text → List Text → Type 0
Sub xs ys = All (λ x. contains ys x ≡ true) xs

pub All-map {ℓ κ ι} :
    {A : Type ι} {P : A → Type ℓ} {Q : A → Type κ} (xs : List A)
    → ((x : A) → P x → Q x)
    → All P xs
    → All Q xs
All-map [] f h = tt
All-map (x ∷ xs) f (h, hs) = (f x h, All-map xs f hs)

pub All-contains {ℓ} :
    (P : Text → Type ℓ) (xs : List Text) (x : Text) → All P xs → contains xs x ≡ true → P x
unfolding contains
All-contains P [] x h e = cc
All-contains P (y ∷ ys) x (h, hs) e = elim (Bool-cases (text_eq y x)) [
  | inl same ↦ subst P (text_eq→eq y x same) h
  | inr other ↦ All-contains P ys x hs (ground arith)
]

-- A property of all entries of a list holds of a subset.
pub All-Sub {ℓ} : (P : Text → Type ℓ) (xs ys : List Text) → Sub xs ys → All P ys → All P xs
All-Sub P xs ys s h = All-map xs (λ x e. All-contains P ys x h e) s

pub Sub-cons : (x : Text) (xs ys : List Text) → Sub xs ys → Sub xs (x ∷ ys)
unfolding contains
Sub-cons x xs ys = All-map xs (λ y e. ground arith)

pub Sub-refl : (xs : List Text) → Sub xs xs
unfolding contains
Sub-refl [] = tt
Sub-refl (x ∷ xs) = (rw (text_eq_refl x), Sub-cons x xs xs (Sub-refl xs))

pub Sub-trans : (xs ys zs : List Text) → Sub xs ys → Sub ys zs → Sub xs zs
Sub-trans xs ys zs s t = All-Sub (λ y. contains zs y ≡ true) xs ys s t

pub select-All : (keep : Text → Bool) (xs : List Text) → All (λ x. keep x ≡ true) (select keep xs)
unfolding select
select-All keep [] = tt
select-All keep (x ∷ xs) = ground (arith, select-All keep xs)

pub select-Sub : (keep : Text → Bool) (xs : List Text) → Sub (select keep xs) xs
unfolding select contains
select-Sub keep [] = tt
select-Sub keep (x ∷ xs) =
    let rest = Sub-cons x (select keep xs) xs (select-Sub keep xs) in
    elim (Bool-cases (keep x)) [ inl e ↦ rw e (rw (text_eq_refl x), rest) | inr e ↦ rw e rest ]

contains-insert_sorted :
    (x y : Text) (ys : List Text) → contains (insert_sorted x ys) y ≡ (text_eq x y || contains ys y)
unfolding insert_sorted contains
contains-insert_sorted x y [] = refl
contains-insert_sorted x y (z ∷ zs) = elim (Bool-cases (text_le x z)) [
  | inl e ↦ rw e
  | inr e ↦ rw e (ground (arith, contains-insert_sorted x y zs))
]

-- Sorting keeps the set.
pub contains-sort_strings :
    (xs : List Text) (y : Text) → contains (sort_strings xs) y ≡ contains xs y
unfolding sort_strings contains
contains-sort_strings [] y = refl
contains-sort_strings (x ∷ xs) y =
    contains-insert_sorted x y (sort_strings xs)
    ∙ ap (λ b. text_eq x y || b) (contains-sort_strings xs y)

pub sort_strings-Sub : (xs : List Text) → Sub (sort_strings xs) xs
sort_strings-Sub xs =
    All-map (sort_strings xs) (λ y e. sym (contains-sort_strings xs y) ∙ e)
      (Sub-refl (sort_strings xs))
