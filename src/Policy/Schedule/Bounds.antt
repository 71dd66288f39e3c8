-- ===== src/Policy/Schedule/Bounds.antt =====
-- The least and the greatest of a list, and the cap that blackouts to come put on a deadline.
use Prim.Native.Nat.{min, max}
use pent_ai.Prelude.{ℕ, ◌≤◌, ◌<◌, inl, inr, List, [], ◌∷◌, arith, All, Any}
use pent_ai.Policy.Schedule.{least, greatest, capped}

pub least-lt : (n x : ℕ) (xs : List ℕ) → n < x → All (λ y. n < y) xs → n < least x xs
unfolding least
least-lt n x [] h a = h
least-lt n x (y ∷ ys) h (p, a) = least-lt n (min x y) ys (omega arith) a

least-le-head : (x : ℕ) (xs : List ℕ) → least x xs ≤ x
unfolding least
least-le-head x [] = omega arith
least-le-head x (y ∷ ys) = omega (arith, least-le-head (min x y) ys)

All-mono : {a b : ℕ} (xs : List ℕ) → a ≤ b → All (λ y. b ≤ y) xs → All (λ y. a ≤ y) xs
All-mono [] h p = tt
All-mono (x ∷ xs) h (p, q) = (omega arith, All-mono xs h q)

least-le : (x : ℕ) (xs : List ℕ) → All (λ y. least x xs ≤ y) xs
unfolding least
least-le x [] = tt
least-le x (y ∷ ys) = (omega (arith, least-le-head (min x y) ys), least-le (min x y) ys)

pub greatest-lt : (n x : ℕ) (xs : List ℕ) → n < x → n < greatest x xs
unfolding greatest
greatest-lt n x [] h = h
greatest-lt n x (y ∷ ys) h = greatest-lt n (max x y) ys (omega arith)

pub capped-le : (d : ℕ) (xs : List ℕ) → All (λ y. capped d xs ≤ y) xs
unfolding capped
capped-le d [] = tt
capped-le d (x ∷ xs) =
    (omega (arith, least-le-head x xs), All-mono xs (omega arith) (least-le x xs))

pub capped-lt : (n d : ℕ) (xs : List ℕ) → n < d → All (λ y. n < y) xs → n < capped d xs
unfolding capped
capped-lt n d [] h a = h
capped-lt n d (x ∷ xs) h (p, a) = omega (arith, least-lt n x xs p a)

pub greatest-attained : (d x : ℕ) (xs : List ℕ) → d ≤ greatest x xs → Any (λ y. d ≤ y) (x ∷ xs)
unfolding greatest
greatest-attained d x [] h = inl h
greatest-attained d x (y ∷ ys) h = elim (greatest-attained d (max x y) ys h) [
  | inl p ↦ grind arith
  | inr p ↦ inr (inr p)
]

pub capped-le_self : (d : ℕ) (xs : List ℕ) → capped d xs ≤ d
unfolding capped
capped-le_self d [] = omega arith
capped-le_self d (x ∷ xs) = omega arith
