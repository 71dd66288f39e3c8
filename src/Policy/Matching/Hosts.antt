-- ===== src/Policy/Matching/Hosts.antt =====
-- What the matchers of domains and of networks admit.
use native.Mathlib.Nat.{one-le-pow, div-mul-le_self, lt-div-mul-add, div-eq_of_lt-le}
use pent_ai.Prelude.{
  ℕ, ◌+◌, ◌-◌, ◌*◌, ◌/◌, ◌^◌, ◌≤◌, ◌<◌, ◌≡◌, ap, subst, ◌↔◌, ◌⊎◌, inl, inr, Bool, true, ◌&&◌, [],
  ◌∷◌, ◌++◌, arith, ◌==◌, nat_eq, list_eq, Text, Bool-cases, eq_of_==, ==-refl,
}
use pent_ai.Policy.Document.{Host, Network}
use pent_ai.Policy.Matching.{ends_with, dot, address_bits, in_network, wildcard_matches}

ends_with-append :
    (s suffix : Text) → ends_with s suffix ≡ true → (front : Text) × (s ≡ front ++ suffix)
unfolding ends_with
ends_with-append [] suffix h = ([], ground arith)
ends_with-append (c ∷ s) suffix h = elim (Bool-cases (c ∷ s == suffix)) [
  | inl e ↦ ([], ground arith)
  | inr e ↦ let (front, q) = ends_with-append s suffix (ground arith) in (c ∷ front, ap (◌∷◌ c) q)
]

append-ends_with : (front suffix : Text) → ends_with (front ++ suffix) suffix ≡ true
unfolding ends_with
append-ends_with [] [] = ground arith
append-ends_with [] (c ∷ suffix) = ground arith
append-ends_with (d ∷ front) suffix = ground (arith, append-ends_with front suffix)

-- A wildcard admits exactly the base, if it includes its apex, and the domains that end in a dot
-- and the base.
pub wildcard_matches_iff :
    (base value : Text) (include_apex : Bool)
    → wildcard_matches base include_apex (Host.domain value) ≡ true ↔ (
        ((include_apex ≡ true) × (value ≡ base)) ⊎ ((front : Text) × (value ≡ front ++ dot ∷ base)))
unfolding wildcard_matches
wildcard_matches_iff base value apex = (
  λ h. elim (Bool-cases (apex && value == base)) [
    | inl e ↦ inl (ground arith)
    | inr e ↦ inr (ends_with-append value (dot ∷ base) (ground arith))
  ],
  λ c. elim c [
    | inl (p, q) ↦ ground arith
    | inr (front, q) ↦ rw q (ground (arith, append-ends_with front (dot ∷ base)))
  ],
)

pow_two_pos : (n : ℕ) → 0 < 2 ^ n
pow_two_pos n = one-le-pow n 2 (omega arith)

same_block :
    (size a n : ℕ)
    → 0 < size
    → (a / size == n / size) ≡ true ↔ ((n / size * size ≤ a) × (a < n / size * size + size))
same_block size a n h = (
  λ e.
      let q = eq_of_== (a / size) (n / size) e in
      (
        subst (λ k. k * size ≤ a) q (div-mul-le_self a size),
        subst (λ k. a < k * size + size) q (lt-div-mul-add h),
      ),
  λ (p, q).
      let e : a / size ≡ n / size = div-eq_of_lt-le {k = n / size} size p (grind arith) in
      rw e (==-refl (n / size)),
)

-- A network admits exactly the addresses between its first and its last.
pub in_network_iff :
    (network : Network) (a : ℕ)
    → let size = 2 ^ (address_bits network.family - network.prefix_length) in
      let first = network.network_address / size * size in
      in_network network a ≡ true ↔ ((first ≤ a) × (a < first + size))
unfolding in_network
in_network_iff network a =
    same_block (2 ^ (address_bits network.family - network.prefix_length)) a network.network_address
      (pow_two_pos (address_bits network.family - network.prefix_length))
