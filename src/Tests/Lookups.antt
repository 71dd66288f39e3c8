-- ===== src/Tests/Lookups.antt =====
-- Runs of the resolver and of its wire format.
use pent_ai.Prelude.{
  ℕ_discrete, list_eq, option_eq, all_distinct, string_eq, ◌≡◌, refl, ℕ, ◌≤◌, ◌/◌, ◌%◌, some, none,
  List, [], ◌∷◌, Text, codes, drop, Result, ok, err,
}
use pent_ai.Dns.Names.{
  join_dots, DnsError, Canonicalizer, response_invalid, split_dots, encode_label, encode_labels,
  pack, build_query, decode_at, decode_loop, decode_name, name_of, max_pointer_jumps,
}
use pent_ai.Dns.Names.Termination.{decode_loop_total}
use pent_ai.Dns.Names.RoundTrip.{decode_name-build_query}
use pent_ai.Dns.Message.{
  Parsed, check_header, check_question, read_records, read_record, read_answer, read_address,
  parse_response,
}
use pent_ai.Dns.Message.Soundness.{IsAnswer, parse_response-IsAnswer}
use pent_ai.Dns.Backend.{RawAnswer}
use pent_ai.Dns.Resolver.{Resolver, Answer, sorted_texts, canonical_all, accept_answer, resolve}
use pent_ai.Dns.Resolver.Answers.{IsControlled, resolve-IsControlled}

abbrev as_given : Canonicalizer
as_given name = some name

abbrev query_packet : Text
query_packet =
    0 ∷ 7 ∷ 1 ∷ 0 ∷ 0 ∷ 1 ∷ 0 ∷ 0 ∷ 0 ∷ 0 ∷ 0 ∷ 0 ∷ (2 ∷ 97 ∷ 98 ∷ 1 ∷ 99 ∷ 0 ∷ 0 ∷ 28 ∷ 0 ∷ 1 ∷ [])

query_built : build_query (codes "ab.c") 28 7 ≡ ok query_packet
unfolding build_query split_dots encode_label encode_labels pack ℕ_discrete
query_built = refl

decode_name-build_query_example :
    (offset : ℕ) × ((decode_name as_given query_packet 12 ≡ ok (codes "ab.c", offset))
      × (drop offset query_packet ≡ 28 / 256 ∷ 28 % 256 ∷ 0 ∷ 1 ∷ []))
decode_name-build_query_example =
    decode_name-build_query as_given (codes "ab.c") query_packet 28 7 refl query_built

-- A pointer to itself
decode_loop_total_example :
    (d : Result DnsError (List Text × ℕ)) × (decode_loop
        (192 ∷ 0 ∷ [])
        max_pointer_jumps
        3
        0
        none
        []
        []
      ≡ some d)
decode_loop_total_example = decode_loop_total (192 ∷ 0 ∷ []) 0

self_pointer : decode_name as_given (192 ∷ 0 ∷ []) 0 ≡ err response_invalid
unfolding decode_name decode_loop decode_at name_of ℕ_discrete
self_pointer = refl

-- One address for the name "a", named by a pointer.
abbrev response_packet : Text
response_packet =
    0
    ∷ 7
    ∷ 128
    ∷ 0
    ∷ 0
    ∷ 1
    ∷ 0
    ∷ 1
    ∷ 0
    ∷ 0
    ∷ 0
    ∷ 0
    ∷ (1
        ∷ 97
        ∷ 0
        ∷ 0
        ∷ 1
        ∷ 0
        ∷ 1
        ∷ (192 ∷ 12 ∷ 0 ∷ 1 ∷ 0 ∷ 1 ∷ 0 ∷ 0 ∷ 0 ∷ 60 ∷ 0 ∷ 4 ∷ 8 ∷ 8 ∷ 4 ∷ 4 ∷ []))

abbrev parsed : Parsed
parsed = record { addresses = (8 ∷ 8 ∷ 4 ∷ 4 ∷ []) ∷ []; cnames = [] }

response_read : parse_response as_given (λ b. b) response_packet 1 (codes "a") 7 ≡ ok parsed
unfolding parse_response check_header check_question read_records read_record read_answer
    read_address decode_name decode_loop decode_at name_of ℕ_discrete list_eq join_dots all_distinct
response_read = refl

parse_response-IsAnswer_example : IsAnswer response_packet (codes "a") 7 parsed
parse_response-IsAnswer_example =
    parse_response-IsAnswer as_given (λ b. b) response_packet (codes "a") 1 7 parsed response_read

abbrev resolver : Resolver
resolver = record {
  resolver_mode = "tunnel_resolver";
  resolver_id = "r";
  maximum_answers = 16;
  maximum_cnames = 8;
}

abbrev backend : Text → ℕ → Result DnsError RawAnswer
backend hostname port =
    ok (record { addresses = codes "9" ∷ codes "8" ∷ []; cname_chain = codes "b" ∷ [] })

abbrev answer : Answer
answer = record {
  hostname = codes "a";
  addresses = codes "8" ∷ codes "9" ∷ [];
  cname_chain = codes "b" ∷ [];
  resolver_id = "r";
}

resolved :
    resolve
      (λ a. some a)
      as_given
      backend
      resolver
      (some "tunnel_resolver")
      (some "r")
      (codes "a")
      443
    ≡ ok answer
unfolding resolve accept_answer canonical_all sorted_texts option_eq string_eq ℕ_discrete
    all_distinct
resolved = refl

resolve-IsControlled_example :
    IsControlled resolver answer
    × ((as_given (codes "a") ≡ some (codes "a"))
        × ((some "tunnel_resolver" ≡ some resolver.resolver_mode)
            × ((some "r" ≡ some resolver.resolver_id) × ((1 ≤ 443) × (443 ≤ 65_535)))))
resolve-IsControlled_example =
    resolve-IsControlled (λ a. some a) as_given backend resolver (some "tunnel_resolver") (some "r")
      (codes "a") 443 answer resolved
