-- ===== src/Prelude/Lists.antt =====
-- Lists measured by native numbers, Boolean quantifiers and filters over them, and the predicates
-- that say what these decide.
use Prim.Native.Nat.{ℕ, zero, suc, ◌+◌, min}
use mathlib.Core.Path.{◌≡◌, refl, ap}
use mathlib.Core.Logic.{◌⊎◌, inl, inr, ◌↔◌}
use mathlib.Core.Bool.{Bool, true, false, ◌&&◌, ◌||◌}
use mathlib.Core.Option.{Option, none, some}
use mathlib.Core.List.{List, [], ◌∷◌, ◌++◌}
use native.Mathlib.Omega.{arith}
use pent_ai.Prelude.Tests.{if◌then◌else◌, Bool-cases}

module _ {ℓ} {A : Type ℓ} where
  abbrev pub length : List A → ℕ
  length [] = 0
  length (x ∷ xs) = suc (length xs)

  abbrev pub take : ℕ → List A → List A
  take zero xs = []
  take (suc n) [] = []
  take (suc n) (x ∷ xs) = x ∷ take n xs

  abbrev pub drop : ℕ → List A → List A
  drop zero xs = xs
  drop (suc n) [] = []
  drop (suc n) (x ∷ xs) = drop n xs

  abbrev pub get_elem? : List A → ℕ → Option A
  get_elem? [] i = none
  get_elem? (x ∷ xs) zero = some x
  get_elem? (x ∷ xs) (suc i) = get_elem? xs i

  abbrev pub any : (A → Bool) → List A → Bool
  any p [] = false
  any p (x ∷ xs) = p x || any p xs

  abbrev pub all : (A → Bool) → List A → Bool
  all p [] = true
  all p (x ∷ xs) = p x && all p xs

  -- `[x for x in xs if p(x)]`
  abbrev pub filter : (A → Bool) → List A → List A
  filter p [] = []
  filter p (x ∷ xs) = if p x then x ∷ filter p xs else filter p xs

  pub length-append : (xs ys : List A) → length (xs ++ ys) ≡ length xs + length ys
  length-append [] ys = omega arith
  length-append (x ∷ xs) ys = omega (arith, length-append xs ys)

  pub append-nil : (xs : List A) → xs ++ [] ≡ xs
  append-nil [] = refl
  append-nil (x ∷ xs) = ap (λ ys. x ∷ ys) (append-nil xs)

  pub append_assoc : (xs ys zs : List A) → (xs ++ ys) ++ zs ≡ xs ++ (ys ++ zs)
  append_assoc [] ys zs = refl
  append_assoc (x ∷ xs) ys zs = ap (λ ws. x ∷ ws) (append_assoc xs ys zs)

  -- What stands behind a prefix.
  pub get_elem?-append : (xs ys : List A) (y : A) → get_elem? (xs ++ (y ∷ ys)) (length xs) ≡ some y
  get_elem?-append [] ys y = refl
  get_elem?-append (x ∷ xs) ys y = get_elem?-append xs ys y

  pub drop-append : (xs ys : List A) → drop (length xs) (xs ++ ys) ≡ ys
  drop-append [] ys = refl
  drop-append (x ∷ xs) ys = drop-append xs ys

  pub take-append : (xs ys : List A) → take (length xs) (xs ++ ys) ≡ xs
  take-append [] ys = refl
  take-append (x ∷ xs) ys = ap (λ zs. x ∷ zs) (take-append xs ys)

  pub length-take : (n : ℕ) (xs : List A) → length (take n xs) ≡ min n (length xs)
  length-take zero xs = omega arith
  length-take (suc n) [] = omega arith
  length-take (suc n) (x ∷ xs) = omega (arith, length-take n xs)

module _ {ℓ} {A : Type ℓ} where
  -- Every member has the property.
  abbrev pub All : (A → Type 0) → List A → Type 0
  All P [] = Unit
  All P (x ∷ xs) = P x × All P xs

  -- Some member has it.
  abbrev pub Any : (A → Type 0) → List A → Type 0
  Any P [] = ⊥
  Any P (x ∷ xs) = P x ⊎ Any P xs

module _ {ℓ} {A : Type ℓ} where
  pub any-true : (p : A → Bool) (xs : List A) → any p xs ≡ true ↔ Any (λ x. p x ≡ true) xs
  any-true p [] = ground arith
  any-true p (x ∷ xs) = ground (arith, any-true p xs)

  pub any-false : (p : A → Bool) (xs : List A) → any p xs ≡ false ↔ All (λ x. p x ≡ false) xs
  any-false p [] = ground arith
  any-false p (x ∷ xs) = ground (arith, any-false p xs)

  -- A test on the members that pass a filter is a test on those members.
  pub any-filter-false :
      (q p : A → Bool) (xs : List A)
      → any q (filter p xs) ≡ false ↔ All (λ x. p x ≡ true → q x ≡ false) xs
  any-filter-false q p [] = ground arith
  any-filter-false q p (x ∷ xs) = elim (Bool-cases (p x)) [
    | inl e ↦ ground (arith, any-filter-false q p xs)
    | inr e ↦ ground (arith, any-filter-false q p xs)
  ]

  pub filter-nil : (p : A → Bool) (xs : List A) → Any (λ x. p x ≡ true) xs → filter p xs ≡ [] → ⊥
  filter-nil p (x ∷ xs) (inl e) h = ground arith
  filter-nil p (x ∷ xs) (inr a) h = elim (Bool-cases (p x)) [
    | inl e ↦ ground arith
    | inr e ↦ filter-nil p xs a (ground arith)
  ]
  filter-nil p [] a h = a

  pub filter-cons :
      (p : A → Bool) (xs : List A) (y : A) (ys : List A)
      → filter p xs ≡ y ∷ ys
      → Any (λ x. p x ≡ true) xs
  filter-cons p [] y ys h = ground arith
  filter-cons p (x ∷ xs) y ys h = elim (Bool-cases (p x)) [
    | inl e ↦ inl e
    | inr e ↦ inr (filter-cons p xs y ys (ground arith))
  ]

  pub All-map : {P Q : A → Type 0} (xs : List A) → ((x : A) → P x → Q x) → All P xs → All Q xs
  All-map [] f a = tt
  All-map (x ∷ xs) f (p, a) = (f x p, All-map xs f a)

  pub Any-map : {P Q : A → Type 0} (xs : List A) → ((x : A) → P x → Q x) → Any P xs → Any Q xs
  Any-map [] f a = a
  Any-map (x ∷ xs) f (inl p) = inl (f x p)
  Any-map (x ∷ xs) f (inr a) = inr (Any-map xs f a)

  -- Two facts about each member are one fact about each member.
  pub All-zip :
      {P Q R : A → Type 0} (xs : List A)
      → ((x : A) → P x → Q x → R x)
      → All P xs
      → All Q xs
      → All R xs
  All-zip [] f a b = tt
  All-zip (x ∷ xs) f (p, a) (q, b) = (f x p q, All-zip xs f a b)

  pub All-filter :
      (P : A → Type 0) (p : A → Bool) (xs : List A)
      → All P (filter p xs) ↔ All (λ x. p x ≡ true → P x) xs
  All-filter P p [] = (λ a. tt, λ a. tt)
  All-filter P p (x ∷ xs) = elim (Bool-cases (p x)) [
    | inl e ↦
        let (f, g) = All-filter P p xs in rw e (λ (h, a). (λ _. h, f a), λ (h, a). (h refl, g a))
    | inr e ↦ let (f, g) = All-filter P p xs in rw e (λ a. (λ q. absurd (cc), f a), λ (h, a). g a)
  ]

module _ {ℓ} {A : Type ℓ} where
  pub any-append : (p : A → Bool) (xs ys : List A) → any p (xs ++ ys) ≡ (any p xs || any p ys)
  any-append p [] ys = refl
  any-append p (x ∷ xs) ys = ground (arith, any-append p xs ys)

  pub any_mono :
      (p q : A → Bool) (xs : List A)
      → ((x : A) → p x ≡ false → q x ≡ false)
      → any p xs ≡ false
      → any q xs ≡ false
  any_mono p q [] f h = refl
  any_mono p q (x ∷ xs) f h = ground (arith, f x, any_mono p q xs f)

module _ {ℓ} {A : Type ℓ} (P : A → Type 0) where
  pub All-append : (xs ys : List A) → All P xs → All P ys → All P (xs ++ ys)
  All-append [] ys a b = b
  All-append (x ∷ xs) ys (p, a) b = (p, All-append xs ys a b)

  pub All-split : (xs ys : List A) → All P (xs ++ ys) → All P xs × All P ys
  All-split [] ys a = (tt, a)
  All-split (x ∷ xs) ys (p, a) = let (b, c) = All-split xs ys a in ((p, b), c)
