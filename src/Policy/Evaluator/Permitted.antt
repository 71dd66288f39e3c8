-- ===== src/Policy/Evaluator/Permitted.antt =====
-- What it is for a policy to permit an intent, said without the order of the checks.
use pent_ai.Prelude.{
  ℕ, ◌≤◌, ◌<◌, ◌≡◌, ◌≢◌, ◌⊎◌, Bool, true, false, Option, none, some, String, List, [], All, Any,
  contains, string_eq, nat_eq,
}
use pent_ai.Policy.Document.{
  Stamp, Target, AssetRule, CapabilityRule, Schedule, AccountConstraints, Policy, Intent, Effect,
}
use pent_ai.Policy.Paths.{path_matches}
use pent_ai.Policy.Schedule.{testing_schedule_allows}
use pent_ai.Policy.Matching.{asset_matches}
use pent_ai.Policy.Evaluator.{Platform, stored_hash, expected_method}

-- `start ≤ t < end`, for stamps that can be read.
abbrev pub Within : Stamp → Stamp → ℕ → Type 0
Within start end t = (a : ℕ) × (b : ℕ) × (start ≡ some a) × (end ≡ some b) × (a ≤ t) × (t < b)

abbrev pub ScheduleOpen : Platform → Option Schedule → ℕ → Type 0
ScheduleOpen platform none t = Unit
ScheduleOpen platform (some schedule) t = testing_schedule_allows platform.zones schedule t ≡ true

-- A reference that is absent or empty names no account.
abbrev pub NoAccount : Option String → Type 0
NoAccount none = Unit
NoAccount (some s) = s ≡ ""

abbrev pub NamesOneOf : List String → Option String → Type 0
NamesOneOf references none = ⊥
NamesOneOf references (some s) = (s ≢ "") × (contains references s ≡ true)

abbrev pub AccountAdmitted : Option AccountConstraints → Option String → Type 0
AccountAdmitted none reference = Unit
AccountAdmitted (some constraints) reference =
    (constraints.mode ≡ "unauthenticated_only" → NoAccount reference)
    × (constraints.mode ≡ "approved_test_accounts"
        → NamesOneOf constraints.approved_account_references reference)

-- Some rule speaks of the capability, and every such rule allows it.
abbrev pub CapabilityAllowed : List CapabilityRule → String → Type 0
CapabilityAllowed rules capability =
    Any (λ rule. rule.capability ≡ capability) rules
    × All (λ rule. rule.capability ≡ capability → rule.effect ≡ Effect.allow) rules

abbrev pub PortAdmitted : AssetRule → Target → Type 0
PortAdmitted rule target =
    (rule.allowed_ports ≡ []) ⊎ (contains rule.allowed_ports target.port ≡ true)

abbrev pub PathAdmitted : AssetRule → Target → Type 0
PathAdmitted rule target =
    (rule.allowed_paths ≡ [])
    ⊎ Any (λ path. path_matches path target.path ≡ true) rule.allowed_paths

-- The rule matches, and no rule that matches is more specific.
abbrev pub Applies : List AssetRule → Target → AssetRule → Type 0
Applies rules target rule =
    (asset_matches rule target ≡ true)
    × All (λ other. asset_matches other target ≡ true → other.specificity ≤ rule.specificity) rules

-- Some rule matches the target, and every rule that applies allows it, its port and its path.
abbrev pub InScope : List AssetRule → Target → Type 0
InScope rules target =
    Any (λ rule. asset_matches rule target ≡ true) rules
    × All
        (λ rule.
          Applies rules target rule
          → (rule.effect ≡ Effect.allow) × PortAdmitted rule target × PathAdmitted rule target)
        rules

pub record Permitted (platform : Platform) (intent : Intent) (policy : Policy)
    (active revoked : Bool) (t : ℕ) : Type 0 where
  pub untampered : platform.policy_digest policy.body policy.signer_key_id ≡ stored_hash policy
  pub bound : intent.policy_hash ≡ stored_hash policy
  pub well_formed : platform.intent_valid intent ≡ true
  pub assessment : intent.assessment_id ≡ policy.engagement_id
  pub is_active : active ≡ true
  pub not_revoked : revoked ≡ false
  pub policy_current : Within policy.not_before policy.not_after t
  pub intent_current : Within intent.created_at intent.expires_at t
  pub schedule_open : ScheduleOpen platform policy.testing_schedule t
  pub canonical : platform.canonicalize_url intent.target.canonical_url ≡ some intent.target
  pub account : AccountAdmitted policy.account_constraints intent.account_reference
  pub capability : CapabilityAllowed policy.capability_rules intent.capability
  pub method : intent.method ≡ expected_method intent.capability
  pub in_scope : InScope policy.asset_rules intent.target
