-- ===== src/NetworkControl/Attested.antt =====
-- The attestations that `validate_attestation` accepts.
use pent_ai.Prelude.{
  le_of_leb, lt_of_ltb, leb_of_le, ltb_of_lt, ℕ, ◌≤◌, ◌≡◌, ◌↔◌, refl, sym, ap, ◌∙◌, Bool, true,
  false, not, ◌&&◌, Option, none, some, String, ◌==◌, string_eq, ==-refl, eq_of_==, length,
  distinct, leb, ltb, arith, ok, guard, or_fail, >>=-eq-ok, guard-eq-ok, or_fail-eq-ok,
}
use pent_ai.Policy.Document.{Policy}
use pent_ai.Policy.Evaluator.Permitted.{Within}
use pent_ai.NetworkControl.{
  attestation_invalid, route_mismatch, dns_invalid, source_ip_mismatch, malformed, value_error,
  Ipv6Mode, disabled, approved_only, ipv6_enabled, Constraints, Attestation, parse_time,
  is_registered, is_absent, source_ipv6_admitted, validate_attestation,
}

pub record IsAttested (attestation : Attestation) (policy : Policy) (constraints : Constraints)
    (now : ℕ) : Type 0 where
  pub bound : policy.content_hash ≡ some attestation.policy_hash
  pub route : attestation.route_profile_id ≡ constraints.route_profile_id
  pub resolver : attestation.resolver_mode ≡ constraints.dns_mode
  pub observed_twice : 2 ≤ length (distinct attestation.observations)
  pub current : Within attestation.observed_at attestation.expires_at now
  pub has_source : is_absent attestation.source_ipv4 && is_absent attestation.source_ipv6 ≡ false
  pub registered : is_registered constraints.registered_source_ipv4 attestation.source_ipv4 ≡ true
  pub without_ipv6 : constraints.ipv6_mode ≡ disabled → attestation.source_ipv6 ≡ none
  pub approved_ipv6 :
      constraints.ipv6_mode ≡ approved_only
      → is_registered constraints.registered_source_ipv6 attestation.source_ipv6 ≡ true

is_absent_iff : (o : Option String) → (is_absent o ≡ true) ↔ (o ≡ none)
is_absent_iff none = ground arith
is_absent_iff (some s) = ground arith

source_ipv6_admitted_iff :
    (constraints : Constraints) (source : Option String)
    → (source_ipv6_admitted constraints source ≡ true) ↔ (
        (constraints.ipv6_mode ≡ disabled → source ≡ none)
        × (constraints.ipv6_mode ≡ approved_only
            → is_registered constraints.registered_source_ipv6 source ≡ true))
unfolding source_ipv6_admitted
source_ipv6_admitted_iff constraints source = by_mode constraints.ipv6_mode
  where
    by_mode :
        (mode : Ipv6Mode)
        → ((elim mode [
          | disabled ↦ is_absent source
          | approved_only ↦ is_registered constraints.registered_source_ipv6 source
          | ipv6_enabled ↦ true
        ])
            ≡ true)
          ↔ ((mode ≡ disabled → source ≡ none)
              × (mode ≡ approved_only
                  → is_registered constraints.registered_source_ipv6 source ≡ true))
    by_mode disabled =
        let (f, g) = is_absent_iff source in
        ((λ h. ((λ m. f h), λ m. absurd (cc))), λ (a, b). g (a refl))
    by_mode approved_only = ((λ h. ((λ m. absurd (cc)), λ m. h)), λ (a, b). b refl)
    by_mode ipv6_enabled = ((λ h. ((λ m. absurd (cc)), λ m. absurd (cc))), λ p. refl)

negated : (b : Bool) → not b ≡ true → b ≡ false
negated b h = ground arith

module _ (attestation : Attestation) (policy : Policy) (constraints : Constraints) (now : ℕ) where
  validate_attestation-IsAttested :
      validate_attestation attestation policy constraints now ≡ ok tt
      → IsAttested attestation policy constraints now
  unfolding validate_attestation
  validate_attestation-IsAttested h =
      let (hash, e, h₁) = >>=-eq-ok (or_fail policy.content_hash malformed) _ h in
      let (_, a, h₂) =
        >>=-eq-ok (guard (attestation.policy_hash == hash) (value_error attestation_invalid)) _
          h₁ in
      let (_, b, h₃) =
        >>=-eq-ok
          (guard (attestation.route_profile_id == constraints.route_profile_id)
            (value_error route_mismatch))
          _ h₂ in
      let (_, c, h₄) =
        >>=-eq-ok
          (guard (attestation.resolver_mode == constraints.dns_mode) (value_error dns_invalid)) _
          h₃ in
      let twice = leb 2 (length (distinct attestation.observations)) in
      let (_, d, h₅) = >>=-eq-ok (guard twice (value_error attestation_invalid)) _ h₄ in
      let (start, s, h₆) = >>=-eq-ok (parse_time attestation.observed_at) _ h₅ in
      let (_, f, h₇) = >>=-eq-ok (guard (leb start now) (value_error attestation_invalid)) _ h₆ in
      let (end, t, h₈) = >>=-eq-ok (parse_time attestation.expires_at) _ h₇ in
      let (_, g, h₉) = >>=-eq-ok (guard (ltb now end) (value_error attestation_invalid)) _ h₈ in
      let given = is_absent attestation.source_ipv4 && is_absent attestation.source_ipv6 in
      let (_, i, h₁₀) = >>=-eq-ok (guard (not given) (value_error source_ip_mismatch)) _ h₉ in
      let registered = is_registered constraints.registered_source_ipv4 attestation.source_ipv4 in
      let (_, j, k) = >>=-eq-ok (guard registered (value_error source_ip_mismatch)) _ h₁₀ in
      let (p, q) = (source_ipv6_admitted_iff constraints attestation.source_ipv6).0 (
        guard-eq-ok (source_ipv6_admitted constraints attestation.source_ipv6)
          (value_error source_ip_mismatch) k) in
      record {
        bound =
            or_fail-eq-ok policy.content_hash malformed e
            ∙ ap (λ x. some x)
                (sym (
                  eq_of_== attestation.policy_hash hash (
                    guard-eq-ok (attestation.policy_hash == hash) (value_error attestation_invalid)
                      a)));
        route = eq_of_== attestation.route_profile_id constraints.route_profile_id (
            guard-eq-ok (attestation.route_profile_id == constraints.route_profile_id)
              (value_error route_mismatch) b);
        resolver = eq_of_== attestation.resolver_mode constraints.dns_mode (
            guard-eq-ok (attestation.resolver_mode == constraints.dns_mode)
              (value_error dns_invalid) c);
        observed_twice =
            le_of_leb 2 (length (distinct attestation.observations))
              (guard-eq-ok twice (value_error attestation_invalid) d);
        current = (
          start,
          end,
          or_fail-eq-ok attestation.observed_at _ s,
          or_fail-eq-ok attestation.expires_at _ t,
          le_of_leb start now (guard-eq-ok (leb start now) (value_error attestation_invalid) f),
          lt_of_ltb now end (guard-eq-ok (ltb now end) (value_error attestation_invalid) g),
        );
        has_source = negated given (guard-eq-ok (not given) (value_error source_ip_mismatch) i);
        registered = guard-eq-ok registered (value_error source_ip_mismatch) j;
        without_ipv6 = p;
        approved_ipv6 = q;
      }

  IsAttested-validate_attestation :
      IsAttested attestation policy constraints now
      → validate_attestation attestation policy constraints now ≡ ok tt
  unfolding validate_attestation
  IsAttested-validate_attestation a =
      let (start, end, s, t, f, g) = a.current in
      rw
        (
          a.bound,
          ==-refl attestation.policy_hash,
          a.route,
          ==-refl constraints.route_profile_id,
          a.resolver,
          ==-refl constraints.dns_mode,
          leb_of_le 2 (length (distinct attestation.observations)) a.observed_twice,
          s,
          leb_of_le start now f,
          t,
          ltb_of_lt now end g,
          a.has_source,
          a.registered,
          (source_ipv6_admitted_iff constraints attestation.source_ipv6).1
              (a.without_ipv6, a.approved_ipv6),
        )
        refl

  -- An attestation is accepted exactly if it is for the policy, its route and its resolver mode, has two
  -- different observations, has been observed and has not expired, and names a source address, of
  -- which one of IPv4 is registered and one of IPv6 is as the policy's mode for IPv6 admits.
  pub validate_attestation_iff :
      (validate_attestation attestation policy constraints now ≡ ok tt)
      ↔ IsAttested attestation policy constraints now
  validate_attestation_iff = (validate_attestation-IsAttested, IsAttested-validate_attestation)
