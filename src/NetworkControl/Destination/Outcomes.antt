-- ===== src/NetworkControl/Destination/Outcomes.antt =====
-- The outcome of `authorize_destination`.
use pent_ai.Prelude.{
  ℕ, ◌≡◌, ◌↔◌, refl, ap, subst, ◌∙◌, Bool, true, false, not, ◌&&◌, ◌||◌, Option, some, List, [],
  ◌++◌, map, ◌==◌, string_eq, nat_eq, list_eq, if◌then◌else◌, Unique, all_distinct,
  all_distinct_iff, any, Text, ok, >>=-eq-ok, ok-injective, arith, All,
}
use pent_ai.Policy.Document.{Host, Target, Policy, Intent}
use pent_ai.Policy.Evaluator.{is_empty}
use pent_ai.Policy.Evaluator.Permitted.{Permitted}
use pent_ai.NetworkControl.{
  Denial, denial_eq, dns_invalid, grant_invalid, redirect_denied, dns_rebinding, ipv6_denied,
  Constraints, Attestation, is_disabled,
}
use pent_ai.NetworkControl.Attested.{IsAttested}
use pent_ai.NetworkControl.Hosts.{Toolbox, is_ipv6, host_value, canonical_host, pin}
use pent_ai.NetworkControl.Destination.{
  Grant, Request, attempt, noted, target_reasons, host_reasons, is_rebound, pin_reasons, in_policy,
  check_cnames, is_fixture, Completed, check_candidate,
}
use pent_ai.NetworkControl.Destination.Admitted.{
  Pins, pin-Pins, Pins-pin, noted_iff, append-nil_iff, attempt_iff, TargetAdmitted,
  target_reasons_iff, host_reasons_iff, in_policy_iff,
}
use pent_ai.NetworkControl.Destination.Chain.{NameAdmitted, check_cnames_iff}

-- The pins are those of the time before, where they are given, and none is of IPv6 where that is disabled.
abbrev PinsAdmitted : Toolbox → Constraints → List Host → Option (List Text) → Type 0
PinsAdmitted tools constraints pinned previous =
    (is_rebound (map tools.address_text pinned) previous ≡ false)
    × (any is_ipv6 pinned && is_disabled constraints.ipv6_mode ≡ false)

pin_reasons_iff :
    (tools : Toolbox) (constraints : Constraints) (pinned : List Host)
    (previous : Option (List Text))
    → (pin_reasons tools constraints pinned previous ≡ [])
      ↔ PinsAdmitted tools constraints pinned previous
unfolding pin_reasons
pin_reasons_iff tools constraints pinned previous =
    both_noted (is_rebound (map tools.address_text pinned) previous)
      (any is_ipv6 pinned && is_disabled constraints.ipv6_mode) dns_rebinding ipv6_denied
  where
    both_noted :
        (a b : Bool) (r s : Denial) → (noted a r ++ noted b s ≡ []) ↔ ((a ≡ false) × (b ≡ false))
    both_noted true b r s = ground arith
    both_noted false true r s = ground arith
    both_noted false false r s = ground arith

-- What `authorize_destination` allows
pub record IsAdmitted (tools : Toolbox) (grant : Grant) (intent : Intent) (policy : Policy)
    (constraints : Constraints) (attestation : Attestation) (request : Request) (now : ℕ)
    (candidate : Target) (pinned : List Host) : Type 0 where
  pub attested : IsAttested attestation policy constraints now
  pub canonical : tools.platform.canonicalize_url request.candidate_url ≡ some candidate
  pub target_admitted : TargetAdmitted grant candidate intent.target request.redirect_count
  pub sni : canonical_host tools request.sni_host ≡ some (host_value tools candidate.host)
  pub header : canonical_host tools request.host_header ≡ some (host_value tools candidate.host)
  pub some_address : is_empty request.addresses ≡ false
  pub each_once : Unique request.addresses
  pub pins : Pins tools (is_fixture attestation) request.addresses pinned
  pub pins_admitted : PinsAdmitted tools constraints pinned request.previously_pinned_addresses
  pub names_admitted : All (NameAdmitted tools policy intent now candidate) request.cname_chain
  pub permitted :
      Permitted tools.platform (record intent { target = candidate }) policy true false now

empty_or_repeated : (e d : Bool) → (e || not d ≡ false) ↔ ((e ≡ false) × (d ≡ true))
empty_or_repeated true d = ground arith
empty_or_repeated false d = ground arith

refused_iff : (b : Bool) (r : Denial) → (noted (not b) r ≡ []) ↔ (b ≡ true)
refused_iff true r = ground arith
refused_iff false r = ground arith

module _ (tools : Toolbox) (grant : Grant) (intent : Intent) (policy : Policy)
    (constraints : Constraints) (attestation : Attestation) (request : Request) (now : ℕ) where
  -- The reasons up to the addresses
  abbrev first_reasons : Target → List Denial
  first_reasons candidate = target_reasons grant candidate intent.target request.redirect_count

  abbrev address_reasons : List Denial
  address_reasons =
      noted (is_empty request.addresses || not (all_distinct request.addresses)) dns_invalid

  address_reasons_iff :
      (address_reasons ≡ []) ↔ ((is_empty request.addresses ≡ false) × Unique request.addresses)
  address_reasons_iff =
      let (f, g) =
        noted_iff (is_empty request.addresses || not (all_distinct request.addresses))
          dns_invalid in
      let (f', g') =
        empty_or_repeated (is_empty request.addresses) (all_distinct request.addresses) in
      let (u, v) = all_distinct_iff request.addresses in
      (λ h. let (a, b) = f' (f h) in (a, u b), λ (a, b). g (g' (a, v b)))

  pub check_candidate-IsAdmitted :
      (candidate : Target) (done : Completed)
      → IsAttested attestation policy constraints now
      → tools.platform.canonicalize_url request.candidate_url ≡ some candidate
      → check_candidate tools grant intent policy constraints attestation request now candidate
        ≡ ok done
      → done.reasons ≡ []
      → (pinned : List Host) × IsAdmitted tools grant intent policy constraints attestation request
          now candidate pinned
  unfolding check_candidate
  check_candidate-IsAdmitted candidate done attested canonical h empty =
      let first = first_reasons candidate in
      let at_hosts = host_reasons tools candidate request in
      let (hosts, e, h₁) = >>=-eq-ok (attempt first (some candidate) at_hosts) _ h in
      let second = first ++ (hosts ++ address_reasons) in
      let at_pins = pin tools (is_fixture attestation) request.addresses in
      let (pinned, p, h₂) = >>=-eq-ok (attempt second (some candidate) at_pins) _ h₁ in
      let with_pins =
        second ++ pin_reasons tools constraints pinned request.previously_pinned_addresses in
      let (third, c, h₃) =
        >>=-eq-ok (check_cnames tools policy intent now candidate request.cname_chain with_pins) _
          h₂ in
      let at_policy = in_policy tools policy intent now candidate in
      let (admitted, i, h₄) = >>=-eq-ok (attempt third (some candidate) at_policy) _ h₃ in
      let last =
        if candidate.canonical_url == intent.target.canonical_url
        then grant_invalid
        else redirect_denied in
      let all_empty : third ++ noted (not admitted) last ≡ [] =
        ap (λ d. d.reasons) (ok-injective h₄) ∙ empty in
      let (third_empty, none_last) =
        (append-nil_iff third (noted (not admitted) last)).0 all_empty in
      let (pins_empty, names) =
        (check_cnames_iff tools policy intent now candidate request.cname_chain with_pins).0 (
          subst
            (λ rs.
              check_cnames tools policy intent now candidate request.cname_chain with_pins ≡ ok rs)
            third_empty c) in
      let (second_empty, no_pins) =
        (append-nil_iff second
            (pin_reasons tools constraints pinned request.previously_pinned_addresses)).0
          pins_empty in
      let (first_empty, rest_empty) =
        (append-nil_iff first (hosts ++ address_reasons)).0 second_empty in
      let (hosts_empty, addresses_empty) = (append-nil_iff hosts address_reasons).0 rest_empty in
      let (sni, header) = (host_reasons_iff tools candidate request).0 (
        subst (λ rs. host_reasons tools candidate request ≡ ok rs) hosts_empty
          ((attempt_iff first (some candidate) at_hosts hosts).0 e)) in
      let (some_address, each_once) = address_reasons_iff.0 addresses_empty in
      (
        pinned,
        record {
          attested = attested;
          canonical = canonical;
          target_admitted =
              (target_reasons_iff grant candidate intent.target request.redirect_count).0
                first_empty;
          sni = sni;
          header = header;
          some_address = some_address;
          each_once = each_once;
          pins =
              pin-Pins tools (is_fixture attestation) request.addresses pinned
                ((attempt_iff second (some candidate) at_pins pinned).0 p);
          pins_admitted =
              (pin_reasons_iff tools constraints pinned request.previously_pinned_addresses).0
                no_pins;
          names_admitted = names;
          permitted = (in_policy_iff tools policy intent now candidate).0 (
              subst (λ b. in_policy tools policy intent now candidate ≡ ok b)
                ((refused_iff admitted last).0 none_last)
                ((attempt_iff third (some candidate) at_policy admitted).0 i));
        },
      )

  pub IsAdmitted-check_candidate :
      (candidate : Target) (pinned : List Host)
      → IsAdmitted tools grant intent policy constraints attestation request now candidate pinned
      → check_candidate tools grant intent policy constraints attestation request now candidate
        ≡ ok
            (record { reasons = []; candidate = candidate; pinned = map tools.address_text pinned })
  unfolding check_candidate
  IsAdmitted-check_candidate candidate pinned a =
      rw
        (
          (target_reasons_iff grant candidate intent.target request.redirect_count).1
              a.target_admitted,
          (host_reasons_iff tools candidate request).1 (a.sni, a.header),
          address_reasons_iff.1 (a.some_address, a.each_once),
          Pins-pin tools (is_fixture attestation) request.addresses pinned a.pins,
          (pin_reasons_iff tools constraints pinned request.previously_pinned_addresses).1
              a.pins_admitted,
          (check_cnames_iff tools policy intent now candidate request.cname_chain []).1
              (refl, a.names_admitted),
          (in_policy_iff tools policy intent now candidate).1 a.permitted,
        )
        refl
