-- ===== src/Policy/Evaluator/Stages.antt =====
-- Each check of `evaluate` passes exactly where its part of the specification holds.
use pent_ai.Prelude.{
  ℕ, ◌≡◌, refl, ◌↔◌, Bool, true, false, Option, none, some, String, List, [], ◌∷◌, arith, Any, ok,
  ◌==◌, eq_of_==, ==-refl, any, filter, any-filter-false, All-map, Any-map, All-zip, guard, not,
  ◌||◌, ◌>>◌, string_eq, option_eq,
}
use pent_ai.Policy.Document.{
  Effect, effect_eq, Target, CapabilityRule, Schedule, AccountConstraints, Policy, Intent,
}
use pent_ai.Policy.Evaluator.{
  Platform, stored_hash, check_hash, check_validity, check_lifetime, check_schedule, check_target,
  check_account, account_admitted, check_capability, expected_method, Stop, is_empty, rules_for,
}
use pent_ai.Policy.Evaluator.Permitted.{Within, ScheduleOpen, AccountAdmitted, CapabilityAllowed}

allow_no_deny : (Effect.allow == Effect.deny) ≡ false
unfolding effect_eq
allow_no_deny = refl

allow_no_ask : (Effect.allow == Effect.conditional) ≡ false
unfolding effect_eq
allow_no_ask = refl

pub check_hash_iff :
    (platform : Platform) (intent : Intent) (policy : Policy)
    → check_hash platform intent policy ≡ ok tt ↔ (
        (platform.policy_digest policy.body policy.signer_key_id ≡ stored_hash policy)
        × (intent.policy_hash ≡ stored_hash policy))
unfolding check_hash
check_hash_iff platform intent policy = ground arith

pub check_validity_iff :
    (policy : Policy) (t : ℕ)
    → check_validity policy t ≡ ok tt ↔ Within policy.not_before policy.not_after t
unfolding check_validity
check_validity_iff policy t = ground arith

pub check_lifetime_iff :
    (intent : Intent) (t : ℕ)
    → check_lifetime intent t ≡ ok tt ↔ Within intent.created_at intent.expires_at t
unfolding check_lifetime
check_lifetime_iff intent t = ground arith

pub check_schedule_iff :
    (platform : Platform) (schedule : Option Schedule) (t : ℕ)
    → check_schedule platform schedule t ≡ ok tt ↔ ScheduleOpen platform schedule t
unfolding check_schedule
check_schedule_iff platform none t = ground arith
check_schedule_iff platform (some schedule) t = ground arith

pub check_target_iff :
    (platform : Platform) (intent : Intent) (target : Target)
    → check_target platform intent ≡ ok target ↔ (
        (platform.canonicalize_url intent.target.canonical_url ≡ some intent.target)
        × (target ≡ intent.target))
unfolding check_target
check_target_iff platform intent target = ground arith

pub check_account_iff :
    (constraints : Option AccountConstraints) (reference : Option String)
    → check_account constraints reference ≡ ok tt ↔ AccountAdmitted constraints reference
unfolding check_account account_admitted
check_account_iff none reference = ground arith
check_account_iff (some constraints) none = ground arith
check_account_iff (some constraints) (some s) = ground arith

effect_allow :
    (effect : Effect)
    → (effect == Effect.deny) ≡ false
    → (effect == Effect.conditional) ≡ false
    → effect ≡ Effect.allow
unfolding effect_eq
effect_allow Effect.allow p q = refl
effect_allow Effect.deny p q = ground arith
effect_allow Effect.conditional p q = ground arith

capability_guards :
    (none_relevant denies asks fits : Bool) (x y z : Stop)
    → (guard (not (none_relevant || denies)) x >> (guard (not asks) y >> guard fits z)) ≡ ok tt
      ↔ ((none_relevant ≡ false) × (denies ≡ false) × (asks ≡ false) × (fits ≡ true))
capability_guards none_relevant denies asks fits x y z = ground arith

pub is_empty-filter {ℓ} :
    {A : Type ℓ} (p : A → Bool) (xs : List A)
    → is_empty (filter p xs) ≡ false ↔ Any (λ x. p x ≡ true) xs
is_empty-filter p [] = ground arith
is_empty-filter p (x ∷ xs) = ground (arith, is_empty-filter p xs)

abbrev speaks_of : String → CapabilityRule → Bool
speaks_of capability rule = rule.capability == capability

capability_rules_iff :
    (rules : List CapabilityRule) (capability : String)
    → ((is_empty (rules_for capability rules) ≡ false)
        × (any (λ rule. rule.effect == Effect.deny) (rules_for capability rules) ≡ false)
        × (any (λ rule. rule.effect == Effect.conditional) (rules_for capability rules) ≡ false))
      ↔ CapabilityAllowed rules capability
capability_rules_iff rules capability = (
  λ (some_rule, no_deny, no_ask). (
    Any-map rules (λ rule h. eq_of_== _ _ h)
        ((is_empty-filter (speaks_of capability) rules).0 some_rule),
    All-zip rules
        (λ rule p q e.
          effect_allow rule.effect (p (rw e (==-refl capability))) (q (rw e (==-refl capability))))
        ((any-filter-false _ (speaks_of capability) rules).0 no_deny)
        ((any-filter-false _ (speaks_of capability) rules).0 no_ask),
  ),
  λ (some_rule, allowing). (
    (is_empty-filter (speaks_of capability) rules).1
        (Any-map rules (λ rule e. rw e (==-refl capability)) some_rule),
    (any-filter-false _ (speaks_of capability) rules).1
        (All-map rules (λ rule h e. rw (h (eq_of_== _ _ e)) allow_no_deny) allowing),
    (any-filter-false _ (speaks_of capability) rules).1
        (All-map rules (λ rule h e. rw (h (eq_of_== _ _ e)) allow_no_ask) allowing),
  ),
)

pub check_capability_iff :
    (rules : List CapabilityRule) (intent : Intent)
    → check_capability rules intent ≡ ok tt ↔ (
        CapabilityAllowed rules intent.capability
        × (intent.method ≡ expected_method intent.capability))
unfolding check_capability
check_capability_iff rules intent = (
  λ h.
      let (a, b, c, d) = (capability_guards _ _ _ _ _ _ _).0 h in
      ((capability_rules_iff rules intent.capability).0 (a, b, c), eq_of_== _ _ d),
  λ (c, m).
      let (a, b, d) = (capability_rules_iff rules intent.capability).1 c in
      (capability_guards _ _ _ _ _ _ _).1
        (a, b, d, rw m (==-refl (expected_method intent.capability))),
)
