-- ===== src/Dns/Backend.antt =====
-- `PinnedDnsBackend` of controlled_dns_transport.py: one query for each family of addresses. The random
-- source is the sequence of the numbers that it draws, of which a call has drawn `drawn`.
use pent_ai.Prelude.{
  ℕ, zero, suc, not, ◌&&◌, Option, none, some, List, [], ◌∷◌, ◌++◌, Text, ◌==◌, nat_eq, list_eq,
  if◌then◌else◌, leb, contains, Result, ok, err, ◌>>=◌, ◌>>◌, guard, or_fail,
}
use pent_ai.Dns.Names.{
  DnsError, name_invalid, transaction_invalid, cname_mismatch, resolver_invalid, Canonicalizer,
  build_query,
}
use pent_ai.Dns.Message.{Parsed, parse_response, type_a, type_aaaa}

pub record RawAnswer : Type 0 where
  pub addresses : List Text
  pub cname_chain : List Text

pub data ResolverMode : Type 0 where
  tunnel_resolver approved_resolver other_mode : ResolverMode

pub record Endpoint : Type 0 where
  pub server_port : ℕ
  pub tls_hostname : Option Text

-- The choice of port and TLS name by `__init__`
unfoldable pub endpoint : Canonicalizer → ResolverMode → Option Text → Result DnsError Endpoint
endpoint canonicalize_domain tunnel_resolver none =
    ok (record { server_port = 53; tls_hostname = none })
endpoint canonicalize_domain tunnel_resolver (some name) = err resolver_invalid
endpoint canonicalize_domain approved_resolver none = err resolver_invalid
endpoint canonicalize_domain approved_resolver (some name) = do
  canonical ← or_fail (canonicalize_domain name) resolver_invalid
  ok (record { server_port = 853; tls_hostname = some canonical })
endpoint canonicalize_domain other_mode name = err resolver_invalid

-- What a query waits for
abbrev pub Exchange : Type 0
Exchange = Text → Result DnsError Text

module _ (canonicalize_domain : Canonicalizer) (compressed : Text → Text) (exchange : Exchange)
    (transaction_id : ℕ → ℕ) where
  -- `_next_transaction_id`, with the attempts that are left: the identity and how many are drawn then.
  unfoldable pub next_transaction_id : ℕ → ℕ → List ℕ → Result DnsError (ℕ × ℕ)
  next_transaction_id zero drawn used = err transaction_invalid
  next_transaction_id (suc attempts) drawn used =
      let rest = next_transaction_id attempts (suc drawn) used in
      let value = transaction_id drawn in
      if leb value 65_535 && not (contains used value) then ok (value, suc drawn) else rest

  -- One round of the loop over the families
  unfoldable pub query_family : Text → ℕ → ℕ → Result DnsError Parsed
  query_family hostname query_type identity = do
    query ← build_query hostname query_type identity
    response ← exchange query
    parse_response canonicalize_domain compressed response query_type hostname identity

  -- `resolve`
  unfoldable pub resolve_pinned : Text → Result DnsError RawAnswer
  resolve_pinned hostname = or_fail (canonicalize_domain hostname) name_invalid >>= λ canonical.
      next_transaction_id 4 0 [] >>= λ (first_id, drawn).
      query_family canonical type_a first_id >>= λ first.
      next_transaction_id 4 drawn (first_id ∷ []) >>= λ (second_id, drawn').
      query_family canonical type_aaaa second_id >>= λ second.
      guard (first.cnames == second.cnames) cname_mismatch
      >> ok (record { addresses = first.addresses ++ second.addresses; cname_chain = first.cnames })
