-- ===== src/NetworkControl/Destination.antt =====
-- `authorize_destination`. What the code appends to `reasons` before an exception stays in the answer.
pub mod Admitted
pub mod Chain
pub mod Outcomes
pub mod Authorized
pub mod Explained
use pent_ai.Prelude.{
  ℕ, zero, suc, ◌+◌, ◌*◌, ◌/◌, ◌%◌, Bool, true, false, not, ◌&&◌, ◌||◌, Option, none, some, String,
  List, [], ◌∷◌, ◌++◌, map, ◌==◌, string_eq, nat_eq, option_eq, list_eq, if◌then◌else◌, contains,
  length, all_distinct, any, all, leb, ltb, Text, codes, starts_with, Result, ok, err, ◌>>=◌, ◌>>◌,
  guard, or_fail, Eq,
}
use pent_ai.Policy.Document.{
  Stamp, Host, Target, target_eq, Policy, Intent, Decision, Outcome, allowed, denied, Family, v4,
  v6, Network,
}
use pent_ai.Policy.Evaluator.{Platform, evaluate, is_empty}
use pent_ai.Policy.Matching.{cidr_matches}
use pent_ai.Dns.Resolver.{sorted_texts}
use pent_ai.NetworkControl.{
  ReasonCode, destination_authorized, denied_for, Denial, denial_eq, dns_invalid, protocol_denied,
  port_denied, redirect_denied, sni_host_mismatch, dns_rebinding, ipv6_denied, dns_special_address,
  cname_out_of_scope, grant_invalid, time_invalid, Failure, malformed, value_error, Constraints,
  Attestation, is_disabled, validate_attestation,
}
use pent_ai.NetworkControl.Hosts.{Toolbox, is_ipv6, host_value, canonical_host, pin, cname_url}

-- The constraints of a grant
pub record Grant : Type 0 where
  pub grant_id : String
  pub follow_redirects : Bool
  pub maximum_redirects : ℕ

pub record Request : Type 0 where
  pub candidate_url : Text
  pub addresses : List Text
  pub cname_chain : List Text
  pub sni_host : Text
  pub host_header : Text
  pub redirect_count : ℕ
  pub previously_pinned_addresses : Option (List Text)

pub record Authorization : Type 0 where
  pub authorization_id : String
  pub grant_id : String
  pub attestation_id : String
  pub outcome : Outcome
  pub reason_codes : List ReasonCode
  pub candidate : Option Target
  pub pinned_addresses : List Text
  pub created_at : ℕ

-- What an exception finds: the reasons so far and the candidate.
pub record Interrupted : Type 0 where
  pub reasons : List Denial
  pub candidate : Option Target
  pub failure : Failure

abbrev pub Attempt : Type 0 → Type 0
Attempt A = Result Interrupted A

abbrev pub attempt : {A : Type 0} → List Denial → Option Target → Result Failure A → Attempt A
attempt reasons candidate (ok a) = ok a
attempt reasons candidate (err failure) =
    err (record { reasons = reasons; candidate = candidate; failure = failure })

-- `if test: reasons.append(reason)`
abbrev pub noted : Bool → Denial → List Denial
noted true reason = reason ∷ []
noted false reason = []

-- The first comparisons of the candidate with the target
unfoldable pub target_reasons : Grant → Target → Target → ℕ → List Denial
target_reasons grant candidate original redirect_count =
    noted (not (candidate.scheme == "http" || candidate.scheme == "https")) protocol_denied
    ++ (noted (not (candidate.scheme == original.scheme)) protocol_denied
        ++ (noted (not (candidate.port == original.port)) port_denied
            ++ noted
                (not (candidate.canonical_url == original.canonical_url)
                  && (not grant.follow_redirects
                      || (ltb redirect_count 1 || ltb grant.maximum_redirects redirect_count)))
                redirect_denied))

-- The two hosts; the second is not read where the first differs.
unfoldable pub host_reasons : Toolbox → Target → Request → Result Failure (List Denial)
host_reasons tools candidate request =
    or_fail (canonical_host tools request.sni_host) malformed >>= λ sni.
    if sni == host_value tools candidate.host
    then (or_fail (canonical_host tools request.host_header) malformed >>= λ header.
        ok (noted (not (header == host_value tools candidate.host)) sni_host_mismatch))
    else ok (sni_host_mismatch ∷ [])

-- `set(xs) != set(ys)`
abbrev pub same_set : List Text → List Text → Bool
same_set xs ys = all (contains ys) xs && all (contains xs) ys

abbrev pub is_rebound : List Text → Option (List Text) → Bool
is_rebound pinned none = false
is_rebound pinned (some previous) = not (same_set pinned previous)

unfoldable pub pin_reasons : Toolbox → Constraints → List Host → Option (List Text) → List Denial
pin_reasons tools constraints pinned previous =
    noted (is_rebound (map tools.address_text pinned) previous) dns_rebinding
    ++ noted (any is_ipv6 pinned && is_disabled constraints.ipv6_mode) ipv6_denied

abbrev pub is_allowed : Decision → Bool
is_allowed decision = elim decision.outcome [ allowed ↦ true | denied ↦ false ]

-- `evaluate(…)["outcome"] == "allow"` for the intent with another target
unfoldable pub in_policy : Toolbox → Policy → Intent → ℕ → Target → Result Failure Bool
in_policy tools policy intent now target =
    or_fail (evaluate tools.platform (record intent { target = target }) policy true false now)
      (value_error time_invalid)
    >>= λ decision. ok (is_allowed decision)

-- Whether a name of the chain is in scope
unfoldable pub cname_in_policy : Toolbox → Policy → Intent → ℕ → Target → Text → Result Failure Bool
cname_in_policy tools policy intent now candidate name = do
  domain ← or_fail (tools.canonicalize_domain name) malformed
  target ← or_fail (tools.platform.canonicalize_url (cname_url candidate domain)) malformed
  in_policy tools policy intent now target

-- The loop over the chain, with the reasons so far
unfoldable pub check_cnames :
    Toolbox → Policy → Intent → ℕ → Target → List Text → List Denial → Attempt (List Denial)
check_cnames tools policy intent now candidate [] reasons = ok reasons
check_cnames tools policy intent now candidate (name ∷ names) reasons = do
  admitted ←
      attempt reasons (some candidate) (cname_in_policy tools policy intent now candidate name)
  check_cnames tools policy intent now candidate names
      (reasons ++ noted (not admitted) cname_out_of_scope)

abbrev pub is_fixture : Attestation → Bool
is_fixture attestation = starts_with (codes attestation.resolver_id) (codes "fixture:")

-- What the whole `try` ends with
pub record Completed : Type 0 where
  pub reasons : List Denial
  pub candidate : Target
  pub pinned : List Text

-- The part behind the canonical candidate
unfoldable pub check_candidate :
    Toolbox
    → Grant
    → Intent
    → Policy
    → Constraints
    → Attestation
    → Request
    → ℕ
    → Target
    → Attempt Completed
check_candidate tools grant intent policy constraints attestation request now candidate = do
  let original = intent.target
  let first = target_reasons grant candidate original request.redirect_count
  hosts ← attempt first (some candidate) (host_reasons tools candidate request)
  let second =
      first
      ++ (hosts
          ++ noted (is_empty request.addresses || not (all_distinct request.addresses)) dns_invalid)
  pinned ← attempt second (some candidate) (pin tools (is_fixture attestation) request.addresses)
  third ←
      check_cnames tools policy intent now candidate request.cname_chain
        (second ++ pin_reasons tools constraints pinned request.previously_pinned_addresses)
  admitted ← attempt third (some candidate) (in_policy tools policy intent now candidate)
  ok (record {
    reasons =
        third
        ++ noted (not admitted) (
            if candidate.canonical_url == original.canonical_url
            then grant_invalid
            else redirect_denied);
    candidate = candidate;
    pinned = map tools.address_text pinned;
  })

-- The body of the `try`
unfoldable pub check_destination :
    Toolbox → Grant → Intent → Policy → Constraints → Attestation → Request → ℕ → Attempt Completed
check_destination tools grant intent policy constraints attestation request now = do
  attempt [] none (validate_attestation attestation policy constraints now)
  candidate ←
      attempt [] none (or_fail (tools.platform.canonicalize_url request.candidate_url) malformed)
  check_candidate tools grant intent policy constraints attestation request now candidate

-- `list(dict.fromkeys(reasons))`, with the reasons that are there already
unfoldable pub first_of_each : List Denial → List Denial → List Denial
first_of_each seen [] = []
first_of_each seen (reason ∷ reasons) =
    let kept = first_of_each (reason ∷ seen) reasons in
    let skipped = first_of_each seen reasons in
    if contains seen reason then skipped else reason ∷ kept

-- The lines behind the `try`, for a denial and for an authorization
unfoldable pub conclude :
    String → Grant → Attestation → ℕ → List Denial → Option Target → List Text → Authorization
conclude id grant attestation now reasons candidate pinned =
    let unique_reasons = first_of_each [] reasons in
    record {
      authorization_id = id;
      grant_id = grant.grant_id;
      attestation_id = attestation.attestation_id;
      outcome = if is_empty unique_reasons then allowed else denied;
      reason_codes =
          if is_empty unique_reasons
          then destination_authorized ∷ []
          else map denied_for unique_reasons;
      candidate = candidate;
      pinned_addresses = if is_empty unique_reasons then sorted_texts pinned else [];
      created_at = now;
    }

-- The two `except` branches: a reason is added, and the candidate is dropped by the first.
unfoldable pub after_failure : Failure → List Denial → Option Target → List Denial × Option Target
after_failure malformed reasons candidate = (reasons ++ (dns_invalid ∷ []), none)
after_failure (value_error reason) reasons candidate = (reasons ++ (reason ∷ []), candidate)

unfoldable pub answer : String → Grant → Attestation → ℕ → Attempt Completed → Authorization
answer id grant attestation now (ok done) =
    conclude id grant attestation now done.reasons (some done.candidate) done.pinned
answer id grant attestation now (err interrupted) =
    let (reasons, candidate) =
      after_failure interrupted.failure interrupted.reasons interrupted.candidate in
    conclude id grant attestation now reasons candidate []

-- `authorize_destination`; the UUID is an argument.
unfoldable pub authorize_destination :
    Toolbox
    → String
    → Grant
    → Intent
    → Policy
    → Constraints
    → Attestation
    → Request
    → ℕ
    → Authorization
authorize_destination tools id grant intent policy constraints attestation request now =
    answer id grant attestation now
      (check_destination tools grant intent policy constraints attestation request now)
