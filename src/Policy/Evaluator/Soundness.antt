-- ===== src/Policy/Evaluator/Soundness.antt =====
-- `evaluate` against `Permitted`: it allows what is permitted and nothing else.
use pent_ai.Prelude.{
  ℕ, ◌≡◌, refl, subst, ◌↔◌, Bool, true, false, Option, none, some, String, List, arith, ◌==◌,
  ==-refl, eq_of_==, Result, ok, err, guard, ◌>>◌, >>=-eq-ok, guard-eq-ok, string_eq, not,
}
use pent_ai.Policy.Document.{Policy, Intent, Outcome, allowed, Decision}
use pent_ai.Policy.Evaluator.{
  Platform, Stop, deny, value_error, stored_hash, check_hash, check_validity, check_lifetime,
  check_schedule, check_target, check_account, check_capability, check_scope, evaluate_checks,
  conclude, evaluate,
}
use pent_ai.Policy.Evaluator.Permitted.{Permitted}
use pent_ai.Policy.Evaluator.Stages.{
  check_hash_iff, check_validity_iff, check_lifetime_iff, check_schedule_iff, check_target_iff,
  check_account_iff, check_capability_iff,
}
use pent_ai.Policy.Evaluator.Scope.{check_scope_iff, check_scope-ids, applicable, ids_of}

-- The outcome of a decision, if `evaluate` returns one.
unfoldable pub outcome_of : Option Decision → Option Outcome
outcome_of none = none
outcome_of (some d) = some d.outcome

conclude_allowed :
    (platform : Platform) (intent : Intent) (hash : String) (r : Result Stop (List String))
    → outcome_of (conclude platform intent hash r) ≡ some allowed
    → (ids : List String) × (r ≡ ok ids)
unfolding conclude outcome_of
conclude_allowed platform intent hash (ok ids) h = (ids, refl)
conclude_allowed platform intent hash (err (deny reason ids)) h = ground arith
conclude_allowed platform intent hash (err value_error) h = ground arith

then-eq-ok {ℓ} :
    {A : Type ℓ} (m : Result Stop (Unit {0})) (k : Result Stop A) {a : A}
    → (m >> k) ≡ ok a
    → (m ≡ ok tt) × (k ≡ ok a)
then-eq-ok (ok u) k h = (refl, h)
then-eq-ok (err e) k h = cc

module _ (platform : Platform) (intent : Intent) (policy : Policy) (active revoked : Bool)
    (t : ℕ) where
  -- The checks of `evaluate`, all passed.
  abbrev pub Passed : List String → Type 0
  Passed ids =
      (check_hash platform intent policy ≡ ok tt)
      × (platform.intent_valid intent ≡ true)
      × (intent.assessment_id ≡ policy.engagement_id)
      × (revoked ≡ false)
      × (active ≡ true)
      × (check_validity policy t ≡ ok tt)
      × (check_lifetime intent t ≡ ok tt)
      × (check_schedule platform policy.testing_schedule t ≡ ok tt)
      × (check_target platform intent ≡ ok intent.target)
      × (check_account policy.account_constraints intent.account_reference ≡ ok tt)
      × (check_capability policy.capability_rules intent ≡ ok tt)
      × (check_scope policy.asset_rules intent.target ≡ ok ids)

  pub checks-Passed :
      (ids : List String)
      → evaluate_checks platform intent policy active revoked t ≡ ok ids
      → Passed ids
  unfolding evaluate_checks
  checks-Passed ids h =
      let (a, h₁) = then-eq-ok (check_hash platform intent policy) _ h in
      let (b, h₂) = then-eq-ok (guard (platform.intent_valid intent) _) _ h₁ in
      let (c, h₃) = then-eq-ok (guard (intent.assessment_id == policy.engagement_id) _) _ h₂ in
      let (d, h₄) = then-eq-ok (guard (not revoked) _) _ h₃ in
      let (e, h₅) = then-eq-ok (guard active _) _ h₄ in
      let (f, h₆) = then-eq-ok (check_validity policy t) _ h₅ in
      let (g, h₇) = then-eq-ok (check_lifetime intent t) _ h₆ in
      let (h₈, h₉) = then-eq-ok (check_schedule platform policy.testing_schedule t) _ h₇ in
      let (target, i, h₁₀) = >>=-eq-ok (check_target platform intent) _ h₉ in
      let (j, h₁₁) =
        then-eq-ok (check_account policy.account_constraints intent.account_reference) _ h₁₀ in
      let (k, l) = then-eq-ok (check_capability policy.capability_rules intent) _ h₁₁ in
      let same = ((check_target_iff platform intent target).0 i).1 in
      (
        a,
        guard-eq-ok _ _ b,
        eq_of_== _ _ (guard-eq-ok _ _ c),
        ground arith,
        guard-eq-ok _ _ e,
        f,
        g,
        h₈,
        subst (λ x. check_target platform intent ≡ ok x) same i,
        j,
        k,
        subst (λ x. check_scope policy.asset_rules x ≡ ok ids) same l,
      )

  Passed-checks :
      (ids : List String)
      → Passed ids
      → evaluate_checks platform intent policy active revoked t ≡ ok ids
  unfolding evaluate_checks
  Passed-checks ids (a, b, c, d, e, f, g, h, i, j, k, l) =
      let c' : (intent.assessment_id == policy.engagement_id) ≡ true =
        rw c (==-refl policy.engagement_id) in
      rw (a, b, c', d, e, f, g, h, i, j, k, l)

  abbrev Permits : Type 0
  Permits = Permitted platform intent policy active revoked t

  passed-Permitted : (ids : List String) → Passed ids → Permits
  passed-Permitted ids (a, b, c, d, e, f, g, h, i, j, k, l) =
      let scope = check_scope-ids policy.asset_rules intent.target ids l in
      record {
        untampered = ((check_hash_iff platform intent policy).0 a).0;
        bound = ((check_hash_iff platform intent policy).0 a).1;
        well_formed = b;
        assessment = c;
        is_active = e;
        not_revoked = d;
        policy_current = (check_validity_iff policy t).0 f;
        intent_current = (check_lifetime_iff intent t).0 g;
        schedule_open = (check_schedule_iff platform policy.testing_schedule t).0 h;
        canonical = ((check_target_iff platform intent intent.target).0 i).0;
        account = (check_account_iff policy.account_constraints intent.account_reference).0 j;
        capability = ((check_capability_iff policy.capability_rules intent).0 k).0;
        method = ((check_capability_iff policy.capability_rules intent).0 k).1;
        in_scope =
            (check_scope_iff policy.asset_rules intent.target).0
              (subst (λ x. check_scope policy.asset_rules intent.target ≡ ok x) scope l);
      }

  abbrev applicable_ids : List String
  applicable_ids = ids_of (applicable policy.asset_rules intent.target)

  Permitted-Passed : Permits → Passed applicable_ids
  Permitted-Passed p = (
    (check_hash_iff platform intent policy).1 (p.untampered, p.bound),
    p.well_formed,
    p.assessment,
    p.not_revoked,
    p.is_active,
    (check_validity_iff policy t).1 p.policy_current,
    (check_lifetime_iff intent t).1 p.intent_current,
    (check_schedule_iff platform policy.testing_schedule t).1 p.schedule_open,
    (check_target_iff platform intent intent.target).1 (p.canonical, refl),
    (check_account_iff policy.account_constraints intent.account_reference).1 p.account,
    (check_capability_iff policy.capability_rules intent).1 (p.capability, p.method),
    (check_scope_iff policy.asset_rules intent.target).1 p.in_scope,
  )

  -- `evaluate` allows an intent exactly when the policy permits it: the policy is untampered, bound to
  -- the intent, active, not revoked and current, the intent is current, its target canonical, its
  -- account and capability admitted, and every most specific rule that matches admits the target.
  pub evaluate-allowed :
      outcome_of (evaluate platform intent policy active revoked t) ≡ some allowed
      ↔ Permitted platform intent policy active revoked t
  unfolding evaluate conclude outcome_of
  evaluate-allowed = (
    λ h.
        let (ids, q) = conclude_allowed platform intent (stored_hash policy) _ h in
        passed-Permitted ids (checks-Passed ids q),
    λ p. rw (Passed-checks applicable_ids (Permitted-Passed p)) refl,
  )
