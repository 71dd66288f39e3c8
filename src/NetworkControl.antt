-- ===== src/NetworkControl.antt =====
-- network_control.py: the attestation of a network path, and whether a request may go to a destination.
pub mod Attested
pub mod Hosts
pub mod Destination
use pent_ai.Prelude.{
  ℕ, Bool, true, false, not, ◌&&◌, ◌||◌, Option, none, some, String, List, [], ◌∷◌, ◌==◌, Eq,
  string_eq, option_eq, contains, length, distinct, leb, ltb, Result, ok, err, ◌>>=◌, ◌>>◌, guard,
  or_fail,
}
use pent_ai.Policy.Document.{Stamp, Policy}

-- The reasons to deny a request
pub data Denial : Type 0 where
  attestation_invalid route_mismatch dns_invalid source_ip_mismatch dns_special_address : Denial
  protocol_denied port_denied redirect_denied sni_host_mismatch dns_rebinding ipv6_denied : Denial
  cname_out_of_scope grant_invalid : Denial
  -- the text of a `ValueError` that `parse_time` raises
  time_invalid : Denial

Denial-discrete : Discrete Denial
Denial-discrete = hlevel

instance unfoldable pub denial_eq : Eq Denial
unfolding Denial-discrete
denial_eq = record { dec = Denial-discrete }

-- The reason codes of an authorization: of one that allows the request, and of one that denies it
pub data ReasonCode : Type 0 where
  destination_authorized : ReasonCode
  denied_for : Denial → ReasonCode

ReasonCode-discrete : Discrete ReasonCode
ReasonCode-discrete = hlevel (denial_eq.dec)

instance unfoldable pub reason_code_eq : Eq ReasonCode
unfolding ReasonCode-discrete
reason_code_eq = record { dec = ReasonCode-discrete }

-- A `CanonicalizationError`, a `KeyError` or a `TypeError`; or another `ValueError`, with its text.
pub data Failure : Type 0 where
  malformed : Failure
  value_error : Denial → Failure

pub data Ipv6Mode : Type 0 where
  disabled approved_only ipv6_enabled : Ipv6Mode

abbrev pub is_disabled : Ipv6Mode → Bool
is_disabled disabled = true
is_disabled _ = false

-- `network_constraints` of a policy, which the evaluator does not read
pub record Constraints : Type 0 where
  pub route_profile_id : String
  pub dns_mode : String
  pub ipv6_mode : Ipv6Mode
  pub registered_source_ipv4 : List String
  pub registered_source_ipv6 : List String

pub record Attestation : Type 0 where
  pub attestation_id : String
  pub policy_hash : String
  pub route_profile_id : String
  pub resolver_mode : String
  pub resolver_id : String
  pub observations : List String
  pub observed_at : Stamp
  pub expires_at : Stamp
  pub source_ipv4 : Option String
  pub source_ipv6 : Option String

abbrev pub parse_time : Stamp → Result Failure ℕ
parse_time stamp = or_fail stamp (value_error time_invalid)

-- The address is absent or registered.
abbrev pub is_registered : List String → Option String → Bool
is_registered registered none = true
is_registered registered (some address) = contains registered address

abbrev pub is_absent : Option String → Bool
is_absent none = true
is_absent (some address) = false

unfoldable pub source_ipv6_admitted : Constraints → Option String → Bool
source_ipv6_admitted constraints source = elim constraints.ipv6_mode [
  | disabled ↦ is_absent source
  | approved_only ↦ is_registered constraints.registered_source_ipv6 source
  | ipv6_enabled ↦ true
]

-- `validate_attestation`
unfoldable pub validate_attestation :
    Attestation → Policy → Constraints → ℕ → Result Failure (Unit {0})
validate_attestation attestation policy constraints now = do
  hash ← or_fail policy.content_hash malformed
  guard (attestation.policy_hash == hash) (value_error attestation_invalid)
  guard (attestation.route_profile_id == constraints.route_profile_id) (value_error route_mismatch)
  guard (attestation.resolver_mode == constraints.dns_mode) (value_error dns_invalid)
  guard (leb 2 (length (distinct attestation.observations))) (value_error attestation_invalid)
  observed_at ← parse_time attestation.observed_at
  guard (leb observed_at now) (value_error attestation_invalid)
  expires_at ← parse_time attestation.expires_at
  guard (ltb now expires_at) (value_error attestation_invalid)
  guard (not (is_absent attestation.source_ipv4 && is_absent attestation.source_ipv6))
      (value_error source_ip_mismatch)
  guard (is_registered constraints.registered_source_ipv4 attestation.source_ipv4)
      (value_error source_ip_mismatch)
  guard (source_ipv6_admitted constraints attestation.source_ipv6) (value_error source_ip_mismatch)
