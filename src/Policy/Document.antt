-- ===== src/Policy/Document.antt =====
-- The documents of the policy engine, typed as the schemas under schemas/v1 type them. A timestamp
-- is the UTC instant, in microseconds, that `parse_time` (document.py) reads from its text, or
-- `none` where `parse_time` raises. The value of an IP host is the number that its text denotes.
use pent_ai.Prelude.{
  ℕ, Bool, Option, String, List, Text, Eq, ℕ_discrete, string_eq, nat_eq, list_eq,
}

abbrev pub Stamp : Type 0
Stamp = Option ℕ

pub data Host : Type 0 where
  domain : Text → Host
  ipv4 : ℕ → Host
  ipv6 : ℕ → Host

Host-discrete : Discrete Host
Host-discrete = hlevel ℕ_discrete

instance unfoldable pub host_eq : Eq Host
unfolding Host-discrete
host_eq = record { dec = Host-discrete }

-- `CanonicalUrl` of canonicalize.py, and the target of an intent, where the query is optional.
pub record Target : Type 0 where
  pub scheme : String
  pub host : Host
  pub port : ℕ
  pub path : Text
  pub query : Option Text
  pub canonical_url : Text

abbrev string_discrete : Discrete String
string_discrete = string_eq.dec

Target-discrete : Discrete Target
Target-discrete = hlevel (ℕ_discrete, string_discrete)

instance unfoldable pub target_eq : Eq Target
unfolding Target-discrete
target_eq = record { dec = Target-discrete }

pub data Effect : Type 0 where
  allow deny conditional : Effect

Effect-discrete : Discrete Effect
Effect-discrete = hlevel

instance unfoldable pub effect_eq : Eq Effect
unfolding Effect-discrete
effect_eq = record { dec = Effect-discrete }

pub data Family : Type 0 where
  v4 v6 : Family

-- `ip_network(value)`: a prefix of the addresses of a family.
pub record Network : Type 0 where
  pub family : Family
  pub network_address : ℕ
  pub prefix_length : ℕ

-- The matcher of an asset rule, by its asset type.
pub data Matcher : Type 0 where
  url : String → Host → ℕ → Text → Matcher
  domain : Text → Matcher
  wildcard_domain : Text → Bool → Matcher
  ipv4 : ℕ → Matcher
  ipv6 : ℕ → Matcher
  cidr : Network → Matcher

pub record AssetRule : Type 0 where
  pub rule_id : String
  pub effect : Effect
  pub matcher : Matcher
  pub path_prefix : Option Text
  pub specificity : ℕ
  pub allowed_ports : List ℕ
  pub allowed_paths : List Text

pub record CapabilityRule : Type 0 where
  pub rule_id : String
  pub capability : String
  pub effect : Effect

-- A testing window: weekdays count from Monday as 0, times of the day in minutes.
pub record Window : Type 0 where
  pub timezone : String
  pub days : List ℕ
  pub start_time : ℕ
  pub end_time : ℕ

pub record Blackout : Type 0 where
  pub starts_at : Stamp
  pub ends_at : Stamp

pub record Schedule : Type 0 where
  pub allowed_windows : List Window
  pub blackout_periods : List Blackout

pub record AccountConstraints : Type 0 where
  pub mode : String
  pub approved_account_references : List String

-- The policy without its `content_hash` and its `signature`. What the evaluator does not read of it is
-- signed too: `other_keys` is the JSON text of its other keys.
pub record PolicyBody : Type 0 where
  pub engagement_id : String
  pub not_before : Stamp
  pub not_after : Stamp
  pub asset_rules : List AssetRule
  pub capability_rules : List CapabilityRule
  pub testing_schedule : Option Schedule
  pub account_constraints : Option AccountConstraints
  pub other_keys : String

pub record Policy : Type 0 where
  pub body : PolicyBody
  pub open body use *
  pub content_hash : Option String
  pub signer_key_id : Option String

pub record Intent : Type 0 where
  pub intent_id : String
  pub assessment_id : String
  pub policy_hash : String
  pub capability : String
  pub target : Target
  pub method : Option String
  pub account_reference : Option String
  pub created_at : Stamp
  pub expires_at : Stamp

pub data Outcome : Type 0 where
  allowed denied : Outcome

pub data Reason : Type 0 where
  policy_hash_mismatch default_deny policy_revoked policy_inactive policy_expired : Reason
  testing_window_closed target_ambiguous account_denied capability_denied : Reason
  approval_missing method_denied target_out_of_scope explicit_deny port_denied : Reason
  path_denied explicit_allow : Reason

pub record EvaluatorInfo : Type 0 where
  pub name : String
  pub version : String
  pub canonicalization_version : String

pub record Decision : Type 0 where
  pub schema_version : String
  pub decision_id : String
  pub intent_id : String
  pub assessment_id : String
  pub policy_hash : String
  pub outcome : Outcome
  pub reason_codes : List Reason
  pub evaluated_rule_ids : List String
  pub runtime_checks_required : List String
  -- the instant of the intent's `created_at`, whose text the code copies
  pub decided_at : Stamp
  pub evaluator : EvaluatorInfo
