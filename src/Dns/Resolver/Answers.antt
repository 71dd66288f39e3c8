-- ===== src/Dns/Resolver/Answers.antt =====
-- What the resolver returns, whatever its backend answers.
use Prim.Native.Nat.{Ordering}
use pent_ai.Prelude.{
  contains, false, le_of_leb, ℕ, suc, ◌≤◌, ◌≡◌, refl, sym, ap, subst, ◌∙◌, Bool, true, not, ◌&&◌,
  ◌||◌, Option, some, String, List, [], ◌∷◌, Text, ◌==◌, nat_eq, string_eq, option_eq, list_eq,
  eq_of_==, leb, ltb, arith, length, Unique, all_distinct, all_distinct_iff, Result, ok, guard,
  or_fail, >>=-eq-ok, ok-injective, guard-eq-ok, or_fail-eq-ok,
}
use pent_ai.Dns.Names.{
  DnsError, name_invalid, attestation_mismatch, port_invalid, answer_invalid, cname_limit,
  Canonicalizer,
}
use pent_ai.Dns.Backend.{RawAnswer}
use pent_ai.Dns.Resolver.{
  Resolver, Answer, before, insert_text, sorted_texts, canonical_all, accept_answer, resolve,
}

-- Each text stands before the next.
abbrev pub IsAscending : List Text → Type 0
IsAscending [] = Unit
IsAscending (s ∷ []) = Unit
IsAscending (s ∷ (t ∷ ts)) = (before s t ≡ Ordering.lt) × IsAscending (t ∷ ts)

before_flip : (s t : Text) → before s t ≡ Ordering.gt → before t s ≡ Ordering.lt
before_flip [] [] h = ground arith
before_flip [] (d ∷ t) h = ground arith
before_flip (c ∷ s) [] h = refl
before_flip (c ∷ s) (d ∷ t) h = ground (arith, before_flip s t)

insert_text-IsAscending :
    (s : Text) (ts : List Text) → IsAscending ts → IsAscending (insert_text s ts)
unfolding insert_text
insert_text-IsAscending s [] a = tt
insert_text-IsAscending s (t ∷ []) a = ground (arith, before_flip s t)
insert_text-IsAscending s (t ∷ (u ∷ ts)) a =
    ground (arith, before_flip s t, before_flip s u, insert_text-IsAscending s (u ∷ ts) a.1)

-- Texts that neither precedes are the same.
before-eq : (s t : Text) → before s t ≡ Ordering.eq → s ≡ t
before-eq [] [] h = refl
before-eq [] (d ∷ t) h = ground arith
before-eq (c ∷ s) [] h = ground arith
before-eq (c ∷ s) (d ∷ t) h = ground (arith, before-eq s t)

inserted :
    (x s t : Text) (ts rest : List Text) (o : Ordering)
    → before s t ≡ o
    → contains rest x ≡ (x == s || contains ts x)
    → contains
        (elim o [ Ordering.lt ↦ s ∷ t ∷ ts | Ordering.eq ↦ t ∷ ts | Ordering.gt ↦ t ∷ rest ])
        x
      ≡ (x == s || contains (t ∷ ts) x)
inserted x s t ts rest Ordering.lt h i = refl
inserted x s t ts rest Ordering.eq h i =
    let same = before-eq s t h in
    subst (λ k. contains (t ∷ ts) x ≡ (x == k || contains (t ∷ ts) x)) (sym same)
      (repeated (x == t) (contains ts x))
  where
    repeated : (a b : Bool) → (a || b) ≡ (a || (a || b))
    repeated true b = refl
    repeated false b = refl
inserted x s t ts rest Ordering.gt h i =
    ap (λ b. x == t || b) i ∙ swapped (x == t) (x == s) (contains ts x)
  where
    swapped : (a b c : Bool) → (a || (b || c)) ≡ (b || (a || c))
    swapped true true c = refl
    swapped true false c = refl
    swapped false b c = refl

contains-insert_text :
    (x s : Text) (ts : List Text) → contains (insert_text s ts) x ≡ (x == s || contains ts x)
unfolding insert_text
contains-insert_text x s [] = refl
contains-insert_text x s (t ∷ ts) =
    inserted x s t ts (insert_text s ts) (before s t) refl (contains-insert_text x s ts)

-- Sorting keeps the texts.
pub contains-sorted_texts :
    (x : Text) (ss : List Text) → contains (sorted_texts ss) x ≡ contains ss x
unfolding sorted_texts
contains-sorted_texts x [] = refl
contains-sorted_texts x (s ∷ ss) =
    contains-insert_text x s (sorted_texts ss)
    ∙ ap (λ rest. x == s || rest) (contains-sorted_texts x ss)

pub sorted_texts-IsAscending : (ss : List Text) → IsAscending (sorted_texts ss)
unfolding sorted_texts
sorted_texts-IsAscending [] = tt
sorted_texts-IsAscending (s ∷ ss) =
    insert_text-IsAscending s (sorted_texts ss) (sorted_texts-IsAscending ss)

canonical_all-length :
    (canonicalize : Text → Option Text) (values rest : List Text)
    → canonical_all canonicalize values ≡ ok rest
    → length rest ≡ length values
unfolding canonical_all
canonical_all-length canonicalize [] rest h = ground arith
canonical_all-length canonicalize (value ∷ values) rest h =
    let (first, _, h₁) = >>=-eq-ok (or_fail (canonicalize value) answer_invalid) _ h in
    let (more, e, h₂) = >>=-eq-ok (canonical_all canonicalize values) _ h₁ in
    let n : suc (length more) ≡ length rest = ap length (ok-injective h₂) in
    omega (arith, canonical_all-length canonicalize values more e)

-- An answer that a resolver gives
pub record IsControlled (resolver : Resolver) (answer : Answer) : Type 0 where
  pub given : 1 ≤ length answer.addresses
  pub few_addresses : length answer.addresses ≤ resolver.maximum_answers
  pub few_names : length answer.cname_chain ≤ resolver.maximum_cnames
  pub ascending : IsAscending answer.addresses
  pub names_unique : Unique answer.cname_chain
  pub named : answer.resolver_id ≡ resolver.resolver_id

counts : (a m n : ℕ) → not (a == 0 || ltb m a) ≡ true → n ≡ a → (1 ≤ n) × (n ≤ m)
counts a m n h e = ground arith

both : (a b : Bool) → (a && b) ≡ true → (a ≡ true) × (b ≡ true)
both a b h = ground arith

accept_answer-IsControlled :
    (canonicalize_ip : Text → Option Text) (canonicalize_domain : Canonicalizer)
    → (resolver : Resolver) (hostname : Text) (answer : RawAnswer) (r : Answer)
    → accept_answer canonicalize_ip canonicalize_domain resolver hostname answer ≡ ok r
    → IsControlled resolver r × (r.hostname ≡ hostname)
unfolding accept_answer
accept_answer-IsControlled canonicalize_ip canonicalize_domain resolver hostname answer r h =
    let size =
      not
        (length answer.addresses == 0 || ltb resolver.maximum_answers (length answer.addresses)) in
    let (_, g, h₁) = >>=-eq-ok (guard size answer_invalid) _ h in
    let chain = leb (length answer.cname_chain) resolver.maximum_cnames in
    let (_, g₁, h₂) = >>=-eq-ok (guard chain cname_limit) _ h₁ in
    let (values, _, h₃) = >>=-eq-ok (canonical_all canonicalize_ip answer.addresses) _ h₂ in
    let (cnames, e, h₄) = >>=-eq-ok (canonical_all canonicalize_domain answer.cname_chain) _ h₃ in
    let same = length (sorted_texts values) == length answer.addresses in
    let (_, g₂, h₅) = >>=-eq-ok (guard (same && all_distinct cnames) answer_invalid) _ h₄ in
    let (s, d) =
      both same (all_distinct cnames)
        (guard-eq-ok (same && all_distinct cnames) answer_invalid g₂) in
    let (low, high) =
      counts (length answer.addresses) resolver.maximum_answers (length (sorted_texts values))
        (guard-eq-ok size answer_invalid g)
        (eq_of_== (length (sorted_texts values)) (length answer.addresses) s) in
    subst (λ r. IsControlled resolver r × (r.hostname ≡ hostname)) (ok-injective h₅)
      (
        record {
          given = low;
          few_addresses = high;
          few_names =
              subst (λ n. n ≤ resolver.maximum_cnames)
                (sym (canonical_all-length canonicalize_domain answer.cname_chain cnames e))
                (le_of_leb (length answer.cname_chain) resolver.maximum_cnames
                  (guard-eq-ok chain cname_limit g₁));
          ascending = sorted_texts-IsAscending values;
          names_unique = (all_distinct_iff cnames).0 d;
          named = refl;
        },
        refl,
      )

-- Whatever the backend answers, an answer that the resolver returns is for the canonical name that was
-- asked for, has at least one address and at most the resolver's limits of addresses and of names,
-- ascending addresses, so none twice, and a chain with no name twice; the attestation names the
-- resolver and its mode, and the port is from 1 to 65535.
pub resolve-IsControlled :
    (canonicalize_ip : Text → Option Text) (canonicalize_domain : Canonicalizer)
    → (backend : Text → ℕ → Result DnsError RawAnswer) (resolver : Resolver)
    → (attested_mode attested_id : Option String) (hostname : Text) (port : ℕ) (r : Answer)
    → resolve canonicalize_ip canonicalize_domain backend resolver attested_mode attested_id
        hostname port
      ≡ ok r
    → IsControlled resolver r
      × ((canonicalize_domain hostname ≡ some r.hostname)
          × ((attested_mode ≡ some resolver.resolver_mode)
              × ((attested_id ≡ some resolver.resolver_id) × ((1 ≤ port) × (port ≤ 65_535)))))
unfolding resolve
resolve-IsControlled canonicalize_ip canonicalize_domain backend resolver attested_mode attested_id
      hostname port r h =
    let mode = attested_mode == some resolver.resolver_mode in
    let id = attested_id == some resolver.resolver_id in
    let (_, g, h₁) = >>=-eq-ok (guard (mode && id) attestation_mismatch) _ h in
    let (m, i) = both mode id (guard-eq-ok (mode && id) attestation_mismatch g) in
    let (canonical, e, h₂) = >>=-eq-ok (or_fail (canonicalize_domain hostname) name_invalid) _ h₁ in
    let (_, g₁, h₃) = >>=-eq-ok (guard (leb 1 port && leb port 65_535) port_invalid) _ h₂ in
    let (low, high) =
      both (leb 1 port) (leb port 65_535)
        (guard-eq-ok (leb 1 port && leb port 65_535) port_invalid g₁) in
    let (answer, _, h₄) = >>=-eq-ok (backend canonical port) _ h₃ in
    let (c, n) =
      accept_answer-IsControlled canonicalize_ip canonicalize_domain resolver canonical answer r
        h₄ in
    (
      c,
      (
        or_fail-eq-ok (canonicalize_domain hostname) name_invalid e ∙ ap some (sym n),
        (
          eq_of_== attested_mode (some resolver.resolver_mode) m,
          (
            eq_of_== attested_id (some resolver.resolver_id) i,
            (le_of_leb 1 port low, le_of_leb port 65_535 high),
          ),
        ),
      ),
    )
