-- ===== src/Tests/Destinations.antt =====
-- Runs of the checks on a destination, with the policy of the evaluator's tests.
use pent_ai.Prelude.{
  option_eq, ℕ_discrete, all_distinct, distinct, ◌≡◌, ◌↔◌, refl, false, some, none, List, [], ◌∷◌,
  ◌==◌, list_eq, string_eq, nat_eq, codes, if◌then◌else◌,
}
use pent_ai.Policy.Document.{target_eq, host_eq, effect_eq, Host, Target, allowed}
use pent_ai.NetworkControl.{
  denied_for, destination_authorized, denial_eq, source_ipv6_admitted, Constraints, Attestation,
  disabled, sni_host_mismatch, validate_attestation,
}
use pent_ai.NetworkControl.Hosts.{
  pin, is_documentation, destination_address, cname_url, canonical_host, Toolbox,
}
use pent_ai.NetworkControl.Destination.{
  after_failure, host_reasons, cname_in_policy, target_reasons, first_of_each, check_cnames, answer,
  in_policy, check_destination, conclude, check_candidate, pin_reasons, Grant, Request,
  Authorization, authorize_destination,
}
use pent_ai.NetworkControl.Destination.Outcomes.{IsAdmitted}
use pent_ai.NetworkControl.Destination.Authorized.{authorize_destination-allowed}
use pent_ai.NetworkControl.Destination.Explained.{IsExplained, authorize_destination-IsExplained}
use pent_ai.Dns.Resolver.{insert_text, sorted_texts}
use pent_ai.Policy.Evaluator.{
  account_admitted, check_account, check_capability, check_hash, check_lifetime, check_limits,
  check_schedule, check_scope, check_target, check_validity, decision, evaluate, evaluate_checks,
  sorted_set, stored_hash,
}
use pent_ai.Policy.Matching.{
  asset_matches, cidr_matches, ends_with, in_network, matcher_matches, prefix_admits,
  wildcard_matches,
}
use pent_ai.Policy.Paths.{path_matches}
use pent_ai.Policy.Schedule.{
  blackout_starts, capped, deadline_of, earliest, end_candidates, greatest, least,
  testing_schedule_allows, testing_schedule_deadline, window_end, window_ends,
}
use pent_ai.Policy.Evaluator
use pent_ai.Tests.Engine.{the_platform, the_policy, the_intent}

abbrev the_tools : Toolbox
the_tools = record {
  platform = the_platform;
  canonicalize_ip =
      λ text. if text == codes "192.0.2.1" then some (Host.ipv4 3_221_225_985) else none;
  canonicalize_domain = λ name. some name;
  address_text = λ host. codes "192.0.2.1";
  is_global = λ host. false;
}

abbrev the_grant : Grant
the_grant = record { grant_id = "g"; follow_redirects = false; maximum_redirects = 0 }

abbrev the_constraints : Constraints
the_constraints = record {
  route_profile_id = "route";
  dns_mode = "tunnel_resolver";
  ipv6_mode = disabled;
  registered_source_ipv4 = "10.0.0.1" ∷ [];
  registered_source_ipv6 = [];
}

abbrev the_attestation : Attestation
the_attestation = record {
  attestation_id = "t";
  policy_hash = "h";
  route_profile_id = "route";
  resolver_mode = "tunnel_resolver";
  resolver_id = "fixture:one";
  observations = "a" ∷ "b" ∷ [];
  observed_at = some 2;
  expires_at = some 60;
  source_ipv4 = some "10.0.0.1";
  source_ipv6 = none;
}

abbrev the_request : Request
the_request = record {
  candidate_url = codes "https://a.io/x";
  addresses = codes "192.0.2.1" ∷ [];
  cname_chain = codes "a.io" ∷ [];
  sni_host = codes "a.io";
  host_header = codes "a.io";
  redirect_count = 0;
  previously_pinned_addresses = none;
}

abbrev authorized : Request → Authorization
authorized request =
    authorize_destination the_tools "u" the_grant the_intent the_policy the_constraints
      the_attestation request 7

-- The request is allowed; and with another host in its header it is not.
answers_test :
    ((authorized the_request).outcome ≡ allowed)
    × ((authorized the_request).pinned_addresses ≡ codes "192.0.2.1" ∷ [])
    × ((authorized (record the_request { host_header = codes "b.io" })).reason_codes
        ≡ denied_for sni_host_mismatch ∷ [])
    × ((authorized the_request).reason_codes ≡ destination_authorized ∷ [])
unfolding authorize_destination distinct list_eq insert_text sorted_texts after_failure answer
    check_candidate check_cnames check_destination cname_in_policy conclude first_of_each
    host_reasons in_policy pin_reasons target_reasons canonical_host cname_url destination_address
    is_documentation pin denial_eq effect_eq host_eq target_eq account_admitted check_account
    check_capability check_hash check_lifetime check_limits check_schedule check_scope check_target
    check_validity Evaluator.conclude decision evaluate evaluate_checks sorted_set stored_hash
    asset_matches cidr_matches ends_with in_network matcher_matches prefix_admits wildcard_matches
    path_matches blackout_starts capped deadline_of earliest end_candidates greatest least
    testing_schedule_allows testing_schedule_deadline window_end window_ends all_distinct option_eq
    ℕ_discrete source_ipv6_admitted string_eq validate_attestation
answers_test = (refl, refl, refl, refl)

authorize_destination-allowed_example : ((authorized the_request).outcome ≡ allowed) ↔ (
    (candidate : Target) × (pinned : List Host) × IsAdmitted the_tools the_grant the_intent
      the_policy the_constraints the_attestation the_request 7 candidate pinned)
authorize_destination-allowed_example =
    authorize_destination-allowed the_tools "u" the_grant the_intent the_policy the_constraints
      the_attestation the_request 7

authorize_destination-IsExplained_example :
    IsExplained the_tools
      (record the_request { host_header = codes "b.io" })
      (authorized (record the_request { host_header = codes "b.io" }))
authorize_destination-IsExplained_example =
    authorize_destination-IsExplained the_tools "u" the_grant the_intent the_policy the_constraints
      the_attestation (record the_request { host_header = codes "b.io" }) 7
