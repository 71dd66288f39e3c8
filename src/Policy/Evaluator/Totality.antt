-- ===== src/Policy/Evaluator/Totality.antt =====
-- `evaluate` returns a decision, whatever the intent and the policy, once their times can be read.
use pent_ai.Prelude.{
  ℕ, ◌≡◌, ◌≢◌, refl, ◌⊎◌, inl, inr, Bool, true, false, Option, none, some, String, List, [], ◌∷◌,
  arith, Result, ok, err, guard, Result-cases, string_eq, option_eq,
}
use pent_ai.Policy.Document.{
  Target, Schedule, AccountConstraints, AssetRule, CapabilityRule, Policy, Intent, Decision,
  allowed, denied, Reason, explicit_allow, effect_eq, target_eq,
}
use pent_ai.Policy.Evaluator.{
  Platform, Stop, deny, value_error, stored_hash, decision, sorted_set, runtime_checks, check_hash,
  check_validity, check_lifetime, check_schedule, check_target, check_account, check_capability,
  check_limits, check_scope, evaluate_checks, conclude, evaluate,
}
use pent_ai.Policy.Evaluator.Scope.{applicable, ids_of}

-- The chain does not raise.
abbrev Returns {ℓ} : {A : Type ℓ} → Result Stop A → Type ℓ
Returns r = r ≢ err value_error

guard-Returns : (b : Bool) (r : Reason) (ids : List String) → Returns (guard b (deny r ids))
guard-Returns true r ids h = cc
guard-Returns false r ids h = cc

module _ (platform : Platform) (intent : Intent) (policy : Policy) where
  check_hash-Returns : Returns (check_hash platform intent policy)
  unfolding check_hash
  check_hash-Returns = guard-Returns _ _ _

  check_target-Returns : Returns (check_target platform intent)
  unfolding check_target
  check_target-Returns h = ground arith

  check_capability-Returns : (rules : List CapabilityRule) → Returns (check_capability rules intent)
  unfolding check_capability
  check_capability-Returns rules h = ground arith

  check_schedule-Returns :
      (schedule : Option Schedule) (t : ℕ) → Returns (check_schedule platform schedule t)
  unfolding check_schedule
  check_schedule-Returns none t h = ground arith
  check_schedule-Returns (some schedule) t h = guard-Returns _ _ _ h

check_account-Returns :
    (constraints : Option AccountConstraints) (reference : Option String)
    → Returns (check_account constraints reference)
unfolding check_account
check_account-Returns none reference h = ground arith
check_account-Returns (some constraints) reference h = guard-Returns _ _ _ h

check_limits-Returns :
    (rules : List AssetRule) (target : Target) (ids : List String)
    → Returns (check_limits rules target ids)
unfolding check_limits
check_limits-Returns [] target ids h = ground arith
check_limits-Returns (rule ∷ rules) target ids h =
    ground (arith, check_limits-Returns rules target ids)

check_scope-Returns :
    (rules : List AssetRule) (target : Target) → Returns (check_scope rules target)
unfolding check_scope
check_scope-Returns rules target h = ground (
  arith,
  check_limits-Returns (applicable rules target) target (ids_of (applicable rules target)),
)

-- The four timestamps that `evaluate` reads can be read.
abbrev pub Readable : Intent → Policy → Type 0
Readable intent policy =
    (policy.not_before ≢ none)
    × (policy.not_after ≢ none)
    × (intent.created_at ≢ none)
    × (intent.expires_at ≢ none)

check_validity-Returns :
    (policy : Policy) (t : ℕ)
    → policy.not_before ≢ none
    → policy.not_after ≢ none
    → Returns (check_validity policy t)
unfolding check_validity
check_validity-Returns policy t a b h = ground arith

check_lifetime-Returns :
    (intent : Intent) (t : ℕ)
    → intent.created_at ≢ none
    → intent.expires_at ≢ none
    → Returns (check_lifetime intent t)
unfolding check_lifetime
check_lifetime-Returns intent t a b h = ground arith

module _ (platform : Platform) (intent : Intent) (policy : Policy) (active revoked : Bool)
    (t : ℕ) where
  evaluate_checks-Returns :
      Readable intent policy → Returns (evaluate_checks platform intent policy active revoked t)
  unfolding evaluate_checks
  evaluate_checks-Returns (a, b, c, d) h = elim (Result-cases (check_target platform intent)) [
    | inl (target, q) ↦ before (check_scope-Returns policy.asset_rules target) q
    | inr (e, q) ↦ ground (
      arith,
      q,
      check_hash-Returns platform intent policy,
      check_validity-Returns policy t a b,
      check_lifetime-Returns intent t c d,
      check_schedule-Returns platform intent policy policy.testing_schedule t,
      check_target-Returns platform intent policy,
    )
  ]
    where
      before :
          {target : Target}
          → Returns (check_scope policy.asset_rules target)
          → check_target platform intent ≡ ok target
          → ⊥
      before f q = ground (
        arith,
        f,
        q,
        check_hash-Returns platform intent policy,
        check_validity-Returns policy t a b,
        check_lifetime-Returns intent t c d,
        check_schedule-Returns platform intent policy policy.testing_schedule t,
        check_account-Returns policy.account_constraints intent.account_reference,
        check_capability-Returns platform intent policy policy.capability_rules,
      )

  -- What a decision of `evaluate` says: whose it is, and, if it allows, on which rules and under which
  -- runtime checks; a denial asks for no runtime check.
  abbrev pub Says : Decision → Type 0
  Says d =
      (d.intent_id ≡ intent.intent_id)
      × (d.assessment_id ≡ intent.assessment_id)
      × (d.policy_hash ≡ stored_hash policy)
      × (((d.outcome ≡ allowed)
            × (d.reason_codes ≡ explicit_allow ∷ [])
            × (d.runtime_checks_required ≡ runtime_checks)
            × ((ids : List String) × (evaluate_checks platform intent policy active revoked t
                  ≡ ok ids)
                × (d.evaluated_rule_ids ≡ sorted_set ids)))
          ⊎ ((d.outcome ≡ denied) × (d.runtime_checks_required ≡ [])))

  -- Where the four timestamps can be read, `evaluate` returns a decision on this intent under the
  -- stored hash: an allowance that asks for every runtime check, or a denial that asks for none.
  pub evaluate_total :
      Readable intent policy
      → (d : Decision) × (evaluate platform intent policy active revoked t ≡ some d) × Says d
  unfolding evaluate conclude decision
  evaluate_total r = elim (Result-cases (evaluate_checks platform intent policy active revoked t)) [
    | inl (ids, q) ↦ (
      decision platform intent (stored_hash policy) allowed (explicit_allow ∷ []) ids,
      rw q refl,
      (refl, refl, refl, inl (refl, refl, refl, (ids, q, refl))),
    )
    | inr (stop, q) ↦ denies stop q
  ]
    where
      denies :
          (stop : Stop)
          → evaluate_checks platform intent policy active revoked t ≡ err stop
          → (d : Decision) × (evaluate platform intent policy active revoked t ≡ some d) × Says d
      denies (deny reason ids) q = (
        decision platform intent (stored_hash policy) denied (reason ∷ []) ids,
        rw q refl,
        (refl, refl, refl, inr (refl, refl)),
      )
      denies value_error q = absurd (evaluate_checks-Returns r q)
