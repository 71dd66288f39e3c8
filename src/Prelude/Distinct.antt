-- ===== src/Prelude/Distinct.antt =====
-- Python's test that a list repeats nothing, `len(xs) == len(set(xs))`, and what it decides.
use Prim.Native.Nat.{◌≤◌}
use mathlib.Core.Path.{◌≡◌}
use mathlib.Core.Logic.{◌↔◌}
use mathlib.Core.Bool.{Bool, true, false}
use mathlib.Core.List.{List, [], ◌∷◌}
use native.Mathlib.Omega.{arith}
use pent_ai.Prelude.Tests.{Eq, ◌==◌, nat_eq, contains, if◌then◌else◌}
use pent_ai.Prelude.Lists.{length}

module _ {ℓ} {A : Type ℓ} ⦃e : Eq A⦄ where
  -- `set(xs)`, as a list
  unfoldable pub distinct : List A → List A
  distinct [] = []
  distinct (x ∷ xs) = let rest = distinct xs in if contains xs x then rest else x ∷ rest

  unfoldable pub all_distinct : List A → Bool
  unfolding distinct
  all_distinct xs = length xs == length (distinct xs)

  -- No member occurs twice.
  abbrev pub Unique : List A → Type 0
  Unique [] = Unit
  Unique (x ∷ xs) = (contains xs x ≡ false) × Unique xs

  length-distinct : (xs : List A) → length (distinct xs) ≤ length xs
  unfolding distinct
  length-distinct [] = omega arith
  length-distinct (x ∷ xs) = ground (arith, length-distinct xs)

  pub all_distinct_iff : (xs : List A) → all_distinct xs ≡ true ↔ Unique xs
  unfolding all_distinct distinct
  all_distinct_iff [] = ground arith
  all_distinct_iff (x ∷ xs) =
      let h = length-distinct xs in let (f, g) = all_distinct_iff xs in ground arith
