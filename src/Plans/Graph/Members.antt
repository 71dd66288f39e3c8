-- ===== src/Plans/Graph/Members.antt =====
-- How often an id occurs in a list of ids, where the lists are sorted, filtered and counted.
use Prim.Native.Nat.{Ordering}
use Prim.Native.String.{compare}
use pent_ai.Prelude.{
  ℕ, suc, ◌+◌, ◌≤◌, ◌≡◌, refl, sym, ap, subst, inl, inr, Bool, true, false, String, List, [], ◌∷◌,
  ◌++◌, ◌==◌, string_eq, eq_of_==, ==-refl, if◌then◌else◌, arith, contains, length, filter, Unique,
  Bool-cases, nat_eq,
}
use pent_ai.Plans.Graph.{insert_id, sorted}

-- One exactly if the test holds.
abbrev pub bit : Bool → ℕ
bit true = 1
bit false = 0

abbrev pub occurrences : String → List String → ℕ
occurrences x [] = 0
occurrences x (y ∷ ys) = bit (y == x) + occurrences x ys

pub occurrences-append :
    (x : String) (xs ys : List String)
    → occurrences x (xs ++ ys) ≡ occurrences x xs + occurrences x ys
occurrences-append x [] ys = omega arith
occurrences-append x (y ∷ xs) ys = omega (arith, occurrences-append x xs ys)

occurrences-insert_id :
    (s x : String) (ts : List String) → occurrences x (insert_id s ts) ≡ occurrences x (s ∷ ts)
occurrences-insert_id s x [] = refl
occurrences-insert_id s x (t ∷ ts) =
    elim (compare s t)
      as (λ o.
        occurrences x (elim o [
          | Ordering.lt ↦ s ∷ t ∷ ts
          | Ordering.eq ↦ s ∷ t ∷ ts
          | Ordering.gt ↦ t ∷ insert_id s ts
        ])
        ≡ occurrences x (s ∷ t ∷ ts)) [
          | Ordering.lt ↦ refl
          | Ordering.eq ↦ refl
          | Ordering.gt ↦ omega (arith, occurrences-insert_id s x ts)
        ]

pub occurrences-sorted :
    (x : String) (xs : List String) → occurrences x (sorted xs) ≡ occurrences x xs
occurrences-sorted x [] = refl
occurrences-sorted x (y ∷ xs) =
    omega (arith, occurrences-insert_id y x (sorted xs), occurrences-sorted x xs)

pub occurrences-filter :
    (p : String → Bool) (x : String) (xs : List String)
    → occurrences x (filter p xs) ≡ (if p x then occurrences x xs else 0)
occurrences-filter p x [] = ground arith
occurrences-filter p x (y ∷ xs) =
    let h = occurrences-filter p x xs in
    elim (Bool-cases (y == x)) [
      | inl e ↦ let same = eq_of_== y x e in let q : p y ≡ p x = ap p same in ground arith
      | inr e ↦ elim (Bool-cases (p y)) [ inl q ↦ ground arith | inr q ↦ ground arith ]
    ]

pub contains-occurrences :
    (xs : List String) (x : String) → contains xs x ≡ false → occurrences x xs ≡ 0
contains-occurrences [] x c = refl
contains-occurrences (y ∷ xs) x c = ground (arith, contains-occurrences xs x)

pub occurrences-pos : (xs : List String) (x : String) → contains xs x ≡ true → 1 ≤ occurrences x xs
occurrences-pos [] x c = ground arith
occurrences-pos (y ∷ xs) x c = ground (arith, occurrences-pos xs x)

-- In a list that repeats nothing, what occurs does so once.
pub Unique-occurrences :
    (xs : List String) (x : String) → Unique xs → occurrences x xs ≡ bit (contains xs x)
Unique-occurrences [] x u = refl
Unique-occurrences (y ∷ xs) x (c, u) = elim (Bool-cases (y == x)) [
  | inl e ↦
      let same = eq_of_== y x e in
      let z = contains-occurrences xs x (subst (λ k. contains xs k ≡ false) same c) in ground arith
  | inr e ↦ ground (arith, Unique-occurrences xs x u)
]

-- `xs` without the first `x`
abbrev erase : String → List String → List String
erase x [] = []
erase x (y ∷ ys) = if y == x then ys else y ∷ erase x ys

occurrences-erase :
    (x z : String) (xs : List String)
    → 1 ≤ occurrences x xs
    → occurrences z (erase x xs) + bit (x == z) ≡ occurrences z xs
occurrences-erase x z [] h = ground arith
occurrences-erase x z (y ∷ xs) h = elim (Bool-cases (y == x)) [
  | inl e ↦
      let same : bit (x == z) ≡ bit (y == z) = ap (λ k. bit (k == z)) (sym (eq_of_== y x e)) in
      ground arith
  | inr e ↦
      let p : 1 ≤ occurrences x xs = ground arith in
      let i = occurrences-erase x z xs p in ground arith
]

length-erase :
    (x : String) (xs : List String) → 1 ≤ occurrences x xs → suc (length (erase x xs)) ≡ length xs
length-erase x [] h = ground arith
length-erase x (y ∷ xs) h = ground (arith, length-erase x xs)

occurrences-le : (x : String) (xs : List String) → occurrences x xs ≤ length xs
occurrences-le x [] = omega arith
occurrences-le x (y ∷ xs) = ground (arith, occurrences-le x xs)

-- What occurs at least as often in another list: that list is longer by what it has more of one id.
pub occurrences-pigeonhole :
    (x : String) (xs ys : List String)
    → ((z : String) → occurrences z xs ≤ occurrences z ys)
    → length xs + occurrences x ys ≤ length ys + occurrences x xs
occurrences-pigeonhole x [] ys h = omega (arith, occurrences-le x ys)
occurrences-pigeonhole x (y ∷ xs) ys h =
    let here = h y in
    let self = ==-refl y in
    let p : 1 ≤ occurrences y ys = ground arith in
    let i =
      occurrences-pigeonhole x xs (erase y ys)
        (λ z. let a = h z in let b = occurrences-erase y z ys p in omega arith) in
    let l = length-erase y ys p in let o = occurrences-erase y x ys p in omega arith
