-- ===== src/Policy/Evaluator.antt =====
-- evaluator.py: `evaluate` and `_decision`. An early `return _decision(…, "deny", …)` and an
-- uncaught `ValueError` are the two ways to stop a chain of checks. The schema validator, the hash,
-- the UUID of a decision and the time zone database are not the program's: they are parameters, and
-- so is the canonicalizer of URLs, of which the evaluator only compares the result.
pub mod Permitted
pub mod Stages
pub mod Scope
pub mod Soundness
pub mod Totality
pub mod Order
use Prim.Native.Nat.{max, Ordering}
use Prim.Native.String.{compare}
use pent_ai.Prelude.{
  ℕ, Bool, true, false, not, ◌&&◌, ◌||◌, Option, none, some, String, List, [], ◌∷◌, map, ◌==◌,
  nat_eq, string_eq, option_eq, if◌then◌else◌, ltb, leb, contains, Text, any, filter, Result, ok,
  err, ◌>>=◌, ◌>>◌, guard, or_fail,
}
use pent_ai.Policy.Document.{
  Stamp, Target, AssetRule, CapabilityRule, Schedule, AccountConstraints, PolicyBody, Policy,
  Intent, Outcome, allowed, denied, Reason, Decision, Effect, effect_eq, target_eq,
  policy_hash_mismatch, default_deny, policy_revoked, policy_inactive, policy_expired,
  testing_window_closed, target_ambiguous, account_denied, capability_denied, approval_missing,
  method_denied, target_out_of_scope, explicit_deny, port_denied, path_denied, explicit_allow,
}
use pent_ai.Policy.Paths.{path_matches}
use pent_ai.Policy.Schedule.{Zone, testing_schedule_allows}
use pent_ai.Policy.Matching.{asset_matches}

pub record Platform : Type 0 where
  -- `not contract_issues(intent, "action-intent-v1.schema.json")`
  pub intent_valid : Intent → Bool
  -- `content_hash({"policy": unsigned, "signer_key_id": signer_key_id})`
  pub policy_digest : PolicyBody → Option String → String
  -- `none` where `canonicalize_url` raises
  pub canonicalize_url : Text → Option Target
  -- `none` where `ZoneInfo` raises
  pub zones : String → Option Zone
  -- `uuid5(_NAMESPACE, content_hash(seed))`
  pub decision_uuid : Intent → String → Outcome → List Reason → List String → String

pub data Stop : Type 0 where
  deny : Reason → List String → Stop
  value_error : Stop

abbrev pub Check {ℓ} : Type ℓ → Type ℓ
Check A = Result Stop A

-- `sorted(set(xs))`
insert_sorted : String → List String → List String
insert_sorted s [] = s ∷ []
insert_sorted s (t ∷ ts) = elim (compare s t) [
  | Ordering.lt ↦ s ∷ t ∷ ts
  | Ordering.eq ↦ t ∷ ts
  | Ordering.gt ↦ t ∷ insert_sorted s ts
]

unfoldable pub sorted_set : List String → List String
unfolding insert_sorted
sorted_set [] = []
sorted_set (s ∷ ss) = insert_sorted s (sorted_set ss)

abbrev pub runtime_checks : List String
runtime_checks =
    "policy_status" ∷ "clock" ∷ "route_identity" ∷ "source_ip" ∷ "dns" ∷ "destination_ip"
    ∷ "sni_host" ∷ "port" ∷ "redirect" ∷ "rate" ∷ "response_size" ∷ []

abbrev pub checks_for : Outcome → List String
checks_for allowed = runtime_checks
checks_for denied = []

-- `_decision`
unfoldable pub decision :
    Platform → Intent → String → Outcome → List Reason → List String → Decision
decision platform intent hash outcome reasons rule_ids = record {
  schema_version = "1.0.0";
  decision_id = platform.decision_uuid intent hash outcome reasons (sorted_set rule_ids);
  intent_id = intent.intent_id;
  assessment_id = intent.assessment_id;
  policy_hash = hash;
  outcome = outcome;
  reason_codes = reasons;
  evaluated_rule_ids = sorted_set rule_ids;
  runtime_checks_required = checks_for outcome;
  decided_at = intent.created_at;
  evaluator = record {
    name = "pentai-policy-evaluator";
    version = "1.0.0";
    canonicalization_version = "1.0.0";
  };
}

-- `parse_time`
abbrev pub parse_time : Stamp → Check ℕ
parse_time stamp = or_fail stamp value_error

-- `str(policy.get("content_hash", "0" * 64))`
unfoldable pub stored_hash : Policy → String
stored_hash policy = elim policy.content_hash [
  | none ↦ "0000000000000000000000000000000000000000000000000000000000000000"
  | some hash ↦ hash
]

unfoldable pub check_hash : Platform → Intent → Policy → Check (Unit {0})
check_hash platform intent policy =
    guard
      (platform.policy_digest policy.body policy.signer_key_id == stored_hash policy
        && intent.policy_hash == stored_hash policy)
      (deny policy_hash_mismatch [])

-- `not_before`, then `not_after`
unfoldable pub check_validity : Policy → ℕ → Check (Unit {0})
check_validity policy now = do
  not_before ← parse_time policy.not_before
  guard (leb not_before now) (deny policy_inactive [])
  not_after ← parse_time policy.not_after
  guard (ltb now not_after) (deny policy_expired [])

unfoldable pub check_lifetime : Intent → ℕ → Check (Unit {0})
check_lifetime intent now = do
  created_at ← parse_time intent.created_at
  guard (leb created_at now) (deny testing_window_closed [])
  expires_at ← parse_time intent.expires_at
  guard (ltb now expires_at) (deny testing_window_closed [])

unfoldable pub check_schedule : Platform → Option Schedule → ℕ → Check (Unit {0})
check_schedule platform none now = ok tt
check_schedule platform (some schedule) now =
    guard (testing_schedule_allows platform.zones schedule now) (deny testing_window_closed [])

-- The canonical form of the target, if it is the target.
unfoldable pub check_target : Platform → Intent → Check Target
check_target platform intent = do
  canonical ←
      or_fail (platform.canonicalize_url intent.target.canonical_url) (deny target_ambiguous [])
  guard (canonical == intent.target) (deny target_ambiguous [])
  ok canonical

-- The truth value of an optional text
abbrev pub is_given : Option String → Bool
is_given none = false
is_given (some s) = not (s == "")

abbrev pub approves : List String → Option String → Bool
approves references none = false
approves references (some s) = not (s == "") && contains references s

unfoldable pub account_admitted : AccountConstraints → Option String → Bool
account_admitted constraints reference =
    not (constraints.mode == "unauthenticated_only" && is_given reference)
    && not (
        constraints.mode == "approved_test_accounts"
        && not (approves constraints.approved_account_references reference))

unfoldable pub check_account : Option AccountConstraints → Option String → Check (Unit {0})
check_account none reference = ok tt
check_account (some constraints) reference =
    guard (account_admitted constraints reference) (deny account_denied [])

abbrev pub expected_method : String → Option String
expected_method capability =
    if capability == "network.http.get"
    then some "GET"
    else if capability == "network.http.head"
    then some "HEAD"
    else if capability == "network.http.options"
    then some "OPTIONS"
    else none

abbrev pub is_empty {ℓ} : {A : Type ℓ} → List A → Bool
is_empty [] = true
is_empty (x ∷ xs) = false

abbrev pub rules_for : String → List CapabilityRule → List CapabilityRule
rules_for capability = filter (λ rule. rule.capability == capability)

unfoldable pub check_capability : List CapabilityRule → Intent → Check (Unit {0})
check_capability rules intent =
    let relevant = rules_for intent.capability rules in
    let ids = map (λ (rule : CapabilityRule). rule.rule_id) relevant in
    guard (not (is_empty relevant || any (λ rule. rule.effect == Effect.deny) relevant))
      (deny capability_denied ids)
    >> (guard (not (any (λ rule. rule.effect == Effect.conditional) relevant))
          (deny approval_missing ids)
        >> guard (intent.method == expected_method intent.capability) (deny method_denied ids))

abbrev pub matching : Target → List AssetRule → List AssetRule
matching target = filter (λ rule. asset_matches rule target)

-- The greatest specificity
abbrev pub max_specificity : List AssetRule → ℕ
max_specificity [] = 0
max_specificity (rule ∷ rules) = max rule.specificity (max_specificity rules)

abbrev pub at_least : ℕ → List AssetRule → List AssetRule
at_least bound = filter (λ rule. leb bound rule.specificity)

abbrev pub port_admitted : AssetRule → Target → Bool
port_admitted rule target = is_empty rule.allowed_ports || contains rule.allowed_ports target.port

abbrev pub path_admitted : AssetRule → Target → Bool
path_admitted rule target =
    is_empty rule.allowed_paths || any (λ path. path_matches path target.path) rule.allowed_paths

-- The last loop
unfoldable pub check_limits : List AssetRule → Target → List String → Check (Unit {0})
check_limits [] target ids = ok tt
check_limits (rule ∷ rules) target ids =
    let rest = check_limits rules target ids in
    guard (port_admitted rule target) (deny port_denied ids)
    >> (guard (path_admitted rule target) (deny path_denied ids) >> rest)

-- The rules of greatest specificity all have to allow the target; their ids are the result.
unfoldable pub check_scope : List AssetRule → Target → Check (List String)
check_scope rules target = do
  let matches = matching target rules
  guard (not (is_empty matches)) (deny target_out_of_scope [])
  let applicable = at_least (max_specificity matches) matches
  let ids = map (λ (rule : AssetRule). rule.rule_id) applicable
  guard (not (any (λ rule. rule.effect == Effect.deny) applicable)) (deny explicit_deny ids)
  guard (not (any (λ rule. not (rule.effect == Effect.allow)) applicable)) (deny default_deny ids)
  check_limits applicable target ids
  ok ids

-- The body of `evaluate`, up to its result.
unfoldable pub evaluate_checks : Platform → Intent → Policy → Bool → Bool → ℕ → Check (List String)
evaluate_checks platform intent policy active revoked now = do
  check_hash platform intent policy
  guard (platform.intent_valid intent) (deny default_deny [])
  guard (intent.assessment_id == policy.engagement_id) (deny default_deny [])
  guard (not revoked) (deny policy_revoked [])
  guard active (deny policy_inactive [])
  check_validity policy now
  check_lifetime intent now
  check_schedule platform policy.testing_schedule now
  canonical ← check_target platform intent
  check_account policy.account_constraints intent.account_reference
  check_capability policy.capability_rules intent
  check_scope policy.asset_rules canonical

-- `none`: a `ValueError` leaves `evaluate`.
unfoldable pub conclude : Platform → Intent → String → Check (List String) → Option Decision
unfolding decision
conclude platform intent hash (ok ids) =
    some (decision platform intent hash allowed (explicit_allow ∷ []) ids)
conclude platform intent hash (err (deny reason ids)) =
    some (decision platform intent hash denied (reason ∷ []) ids)
conclude platform intent hash (err value_error) = none

unfoldable pub evaluate : Platform → Intent → Policy → Bool → Bool → ℕ → Option Decision
evaluate platform intent policy active revoked now =
    conclude platform intent (stored_hash policy)
      (evaluate_checks platform intent policy active revoked now)
