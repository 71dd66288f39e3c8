-- ===== src/NetworkControl/Destination/Authorized.antt =====
-- The answer of `authorize_destination`.
use pent_ai.Prelude.{
  map, ℕ, ◌≡◌, ◌≢◌, ◌↔◌, refl, Option, none, some, String, List, [], ◌∷◌, ◌++◌, string_eq, nat_eq,
  list_eq, Text, ok, err, or_fail, >>=-eq-ok, or_fail-eq-ok, arith,
}
use pent_ai.Policy.Document.{Host, Target, Policy, Intent, allowed}
use pent_ai.NetworkControl.{
  Denial, denial_eq, dns_invalid, Failure, malformed, value_error, Constraints, Attestation,
  validate_attestation,
}
use pent_ai.NetworkControl.Attested.{validate_attestation_iff}
use pent_ai.NetworkControl.Hosts.{Toolbox}
use pent_ai.NetworkControl.Destination.{
  Grant, Request, Attempt, attempt, Completed, check_destination, first_of_each, conclude,
  after_failure, answer, authorize_destination,
}
use pent_ai.NetworkControl.Destination.Admitted.{attempt_iff}
use pent_ai.NetworkControl.Destination.Outcomes.{
  IsAdmitted, check_candidate-IsAdmitted, IsAdmitted-check_candidate,
}

pub conclude-allowed :
    (id : String) (grant : Grant) (attestation : Attestation) (now : ℕ) (reasons : List Denial)
    → (candidate : Option Target) (pinned : List Text)
    → ((conclude id grant attestation now reasons candidate pinned).outcome ≡ allowed)
      ↔ (reasons ≡ [])
unfolding conclude first_of_each
conclude-allowed id grant attestation now [] candidate pinned = ground arith
conclude-allowed id grant attestation now (reason ∷ reasons) candidate pinned = ground arith

append_one : (reasons : List Denial) (reason : Denial) → reasons ++ (reason ∷ []) ≢ []
append_one [] reason h = ground arith
append_one (r ∷ reasons) reason h = ground arith

pub after_failure-ne-nil :
    (failure : Failure) (reasons : List Denial) (candidate : Option Target)
    → (after_failure failure reasons candidate).0 ≢ []
unfolding after_failure
after_failure-ne-nil malformed reasons candidate = append_one reasons dns_invalid
after_failure-ne-nil (value_error reason) reasons candidate = append_one reasons reason

pub IsAdmitted-check_destination :
    (tools : Toolbox) (grant : Grant) (intent : Intent) (policy : Policy)
    (constraints : Constraints) (attestation : Attestation) (request : Request) (now : ℕ)
    (candidate : Target) (pinned : List Host)
    → IsAdmitted tools grant intent policy constraints attestation request now candidate pinned
    → check_destination tools grant intent policy constraints attestation request now
      ≡ ok (record { reasons = []; candidate = candidate; pinned = map tools.address_text pinned })
unfolding check_destination
IsAdmitted-check_destination tools grant intent policy constraints attestation request now candidate
      pinned a =
    rw
      (
        (validate_attestation_iff attestation policy constraints now).1 a.attested,
        a.canonical,
        IsAdmitted-check_candidate tools grant intent policy constraints attestation request now
            candidate pinned a,
      )
      refl

module _ (tools : Toolbox) (id : String) (grant : Grant) (intent : Intent) (policy : Policy)
    (constraints : Constraints) (attestation : Attestation) (request : Request) (now : ℕ) where
  pub answer-allowed :
      (r : Attempt Completed)
      → (answer id grant attestation now r).outcome ≡ allowed
      → (done : Completed) × (r ≡ ok done) × (done.reasons ≡ [])
  unfolding answer
  answer-allowed (ok done) h = (
    done,
    refl,
    (conclude-allowed id grant attestation now done.reasons (some done.candidate) done.pinned).0 h,
  )
  answer-allowed (err interrupted) h = absurd (
      after_failure-ne-nil interrupted.failure interrupted.reasons interrupted.candidate
        ((conclude-allowed id grant attestation now _ _ []).0 h))

  -- A request is allowed exactly if the attestation is valid, the candidate is the canonical form of its
  -- URL, has the target's scheme, HTTP or HTTPS, and its port, and is the target or a redirect that
  -- the grant admits; the SNI and the host header name its host; there is an address, none twice, and
  -- each is public, or of documentation where the resolver is a fixture, is one of those pinned
  -- before, all of which are given, and is not of IPv6 where that is disabled; and the policy permits
  -- the intent for the candidate and for each name of the chain.
  pub authorize_destination-allowed :
      ((authorize_destination tools id grant intent policy constraints attestation request
          now).outcome
        ≡ allowed)
      ↔ ((candidate : Target) × (pinned : List Host) × IsAdmitted tools grant intent policy
            constraints attestation request now candidate pinned)
  unfolding authorize_destination check_destination answer conclude first_of_each
  authorize_destination-allowed = (
    λ h.
        let (done, e, empty) =
          answer-allowed
            (check_destination tools grant intent policy constraints attestation request now) h in
        let (_, v, e₁) =
          >>=-eq-ok (attempt [] none (validate_attestation attestation policy constraints now)) _
            e in
        let found = or_fail (tools.platform.canonicalize_url request.candidate_url) malformed in
        let (candidate, c, e₂) = >>=-eq-ok (attempt [] none found) _ e₁ in
        let (pinned, a) =
          check_candidate-IsAdmitted tools grant intent policy constraints attestation request now
            candidate done
            ((validate_attestation_iff attestation policy constraints now).0 (
              (attempt_iff [] none (validate_attestation attestation policy constraints now) tt).0
                v))
            (or_fail-eq-ok (tools.platform.canonicalize_url request.candidate_url) malformed
              ((attempt_iff [] none found candidate).0 c))
            e₂ empty in
        (candidate, pinned, a),
    λ (candidate, pinned, a).
        rw
          (IsAdmitted-check_destination tools grant intent policy constraints attestation request
            now candidate pinned a)
          refl,
  )
