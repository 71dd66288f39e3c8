-- ===== src/Dns/Resolver.antt =====
-- `ControlledResolver` of controlled_dns.py: the checks on what a backend answers.
pub mod Answers
use Prim.Native.Nat.{Ordering, compare}
use pent_ai.Prelude.{
  ℕ, Bool, not, ◌&&◌, ◌||◌, Option, none, some, String, List, [], ◌∷◌, Text, ◌==◌, nat_eq, list_eq,
  string_eq, option_eq, if◌then◌else◌, leb, ltb, length, all_distinct, Result, ok, err, ◌>>=◌, ◌>>◌,
  guard, or_fail,
}
use pent_ai.Dns.Names.{
  DnsError, name_invalid, resolver_invalid, attestation_mismatch, port_invalid, answer_invalid,
  cname_limit, Canonicalizer,
}
use pent_ai.Dns.Backend.{RawAnswer, ResolverMode, tunnel_resolver, approved_resolver, other_mode}

pub record Resolver : Type 0 where
  pub resolver_mode : String
  pub resolver_id : String
  pub maximum_answers : ℕ
  pub maximum_cnames : ℕ

pub record Answer : Type 0 where
  pub hostname : Text
  pub addresses : List Text
  pub cname_chain : List Text
  pub resolver_id : String

-- The order of text: by code points
abbrev pub before : Text → Text → Ordering
before [] [] = Ordering.eq
before [] (d ∷ t) = Ordering.lt
before (c ∷ s) [] = Ordering.gt
before (c ∷ s) (d ∷ t) = elim (compare c d) [
  | Ordering.lt ↦ Ordering.lt
  | Ordering.gt ↦ Ordering.gt
  | Ordering.eq ↦ before s t
]

unfoldable pub insert_text : Text → List Text → List Text
insert_text s [] = s ∷ []
insert_text s (t ∷ ts) = elim (before s t) [
  | Ordering.lt ↦ s ∷ t ∷ ts
  | Ordering.eq ↦ t ∷ ts
  | Ordering.gt ↦ t ∷ insert_text s ts
]

-- `sorted({…})`
unfoldable pub sorted_texts : List Text → List Text
unfolding insert_text
sorted_texts [] = []
sorted_texts (s ∷ ss) = insert_text s (sorted_texts ss)

-- Each value in its canonical form, if all have one
unfoldable pub canonical_all : (Text → Option Text) → List Text → Result DnsError (List Text)
canonical_all canonicalize [] = ok []
canonical_all canonicalize (value ∷ values) = do
  first ← or_fail (canonicalize value) answer_invalid
  rest ← canonical_all canonicalize values
  ok (first ∷ rest)

-- `__init__`; the identity is stripped by `strip`.
unfoldable pub new_resolver : (String → String) → String → String → ℕ → ℕ → Result DnsError Resolver
new_resolver strip resolver_mode resolver_id maximum_answers maximum_cnames = do
  guard (resolver_mode == "tunnel_resolver" || resolver_mode == "approved_resolver")
      resolver_invalid
  guard (not (strip resolver_id == "")) resolver_invalid
  ok (record {
    resolver_mode = resolver_mode;
    resolver_id = strip resolver_id;
    maximum_answers = maximum_answers;
    maximum_cnames = maximum_cnames;
  })

-- The lines behind the call of the backend
unfoldable pub accept_answer :
    (Text → Option Text) → Canonicalizer → Resolver → Text → RawAnswer → Result DnsError Answer
accept_answer canonicalize_ip canonicalize_domain resolver hostname answer = do
  guard
      (not (length answer.addresses == 0 || ltb resolver.maximum_answers (length answer.addresses)))
      answer_invalid
  guard (leb (length answer.cname_chain) resolver.maximum_cnames) cname_limit
  values ← canonical_all canonicalize_ip answer.addresses
  cnames ← canonical_all canonicalize_domain answer.cname_chain
  guard (length (sorted_texts values) == length answer.addresses && all_distinct cnames)
      answer_invalid
  ok (record {
    hostname = hostname;
    addresses = sorted_texts values;
    cname_chain = cnames;
    resolver_id = resolver.resolver_id;
  })

-- `resolve`
unfoldable pub resolve :
    (Text → Option Text)
    → Canonicalizer
    → (Text → ℕ → Result DnsError RawAnswer)
    → Resolver
    → Option String
    → Option String
    → Text
    → ℕ
    → Result DnsError Answer
resolve canonicalize_ip canonicalize_domain backend resolver attested_mode attested_id hostname
      port =
    do
      guard
          (attested_mode == some resolver.resolver_mode && attested_id == some resolver.resolver_id)
          attestation_mismatch
      canonical ← or_fail (canonicalize_domain hostname) name_invalid
      guard (leb 1 port && leb port 65_535) port_invalid
      answer ← backend canonical port
      accept_answer canonicalize_ip canonicalize_domain resolver canonical answer
