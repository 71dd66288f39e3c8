-- ===== src/Prelude/Sorting.antt =====
-- Python's `sorted` and SQL's `ORDER BY`: a stable sort by a test that says whether one value may stand
-- before another.
use Prim.Native.Nat.{Ordering}
use Prim.Native.String.{String, compare}
use mathlib.Core.Path.{◌≡◌, refl}
use mathlib.Core.Logic.{inl, inr}
use mathlib.Core.Bool.{Bool, true, false, ◌||◌}
use mathlib.Core.List.{List, [], ◌∷◌}
use native.Mathlib.Omega.{arith}
use pent_ai.Prelude.Tests.{if◌then◌else◌, Bool-cases}
use pent_ai.Prelude.Lists.{All, any}

-- `s <= t`
abbrev pub string_le : String → String → Bool
string_le s t = elim (compare s t) [ Ordering.gt ↦ false | _ ↦ true ]

abbrev pub place_in {ℓ} : {A : Type ℓ} → (A → A → Bool) → A → List A → List A
place_in le x [] = x ∷ []
place_in le x (y ∷ ys) = let rest = place_in le x ys in if le x y then x ∷ (y ∷ ys) else y ∷ rest

abbrev pub sort_by {ℓ} : {A : Type ℓ} → (A → A → Bool) → List A → List A
sort_by le [] = []
sort_by le (x ∷ xs) = place_in le x (sort_by le xs)

module _ {ℓ} {A : Type ℓ} (le : A → A → Bool) where
  any-place_in : (p : A → Bool) (x : A) (ys : List A) → any p (place_in le x ys) ≡ (p x || any p ys)
  any-place_in p x [] = refl
  any-place_in p x (y ∷ ys) = elim (Bool-cases (le x y)) [
    | inl e ↦ rw e refl
    | inr e ↦ ground (arith, any-place_in p x ys)
  ]

  -- Sorting keeps what some member passes, and what holds of each.
  pub any-sort_by : (p : A → Bool) (xs : List A) → any p (sort_by le xs) ≡ any p xs
  any-sort_by p [] = refl
  any-sort_by p (x ∷ xs) = ground (arith, any-place_in p x (sort_by le xs), any-sort_by p xs)

  All-place_in : (P : A → Type 0) (x : A) (ys : List A) → P x → All P ys → All P (place_in le x ys)
  All-place_in P x [] p a = (p, a)
  All-place_in P x (y ∷ ys) p (q, a) = elim (Bool-cases (le x y)) [
    | inl e ↦ rw e (p, (q, a))
    | inr e ↦ rw e (q, All-place_in P x ys p a)
  ]

  pub All-sort_by : (P : A → Type 0) (xs : List A) → All P xs → All P (sort_by le xs)
  All-sort_by P [] a = a
  All-sort_by P (x ∷ xs) (p, a) = All-place_in P x (sort_by le xs) p (All-sort_by P xs a)
