-- ===== src/Tests/Engine.antt =====
-- The policy engine on a policy with one rule.
use mathlib.Core.List.Perm
use pent_ai.Prelude.{
  ℕ, ◌≤◌, ◌<◌, ◌≡◌, ◌⊎◌, ◌↔◌, refl, true, false, Option, none, some, String, [], ◌∷◌, codes,
  list_eq, nat_eq, string_eq, option_eq, All, Any, ok, ℕ_discrete,
}
use pent_ai.Policy.Document.{
  Host, Target, Effect, Network, Family, Matcher, AssetRule, Schedule, Policy, Intent, Decision,
  allowed, host_eq, target_eq, effect_eq,
}
use pent_ai.Policy.Percent.{normalize_percent, IsNormal, normalize_percent_canonical}
use pent_ai.Policy.Schedule.{
  Zone, testing_schedule_deadline, testing_schedule_allows, blackout_starts, window_ends,
  window_end, end_candidates, earliest, least, greatest, capped, deadline_of,
}
use pent_ai.Policy.Schedule.Open.{Covers, Past, Future}
use pent_ai.Policy.Schedule.Deadline.{
  Known, IsOpen, OpenUntil, testing_schedule_deadline_safe, testing_schedule_allows_iff,
}
use pent_ai.Policy.Evaluator.{Platform, evaluate, check_scope}
use pent_ai.Policy.Evaluator.Permitted.{Permitted}
use pent_ai.Policy.Evaluator.Soundness.{outcome_of, evaluate-allowed}
use pent_ai.Policy.Evaluator.Totality.{evaluate_total, Says}
use pent_ai.Policy.Evaluator.Order.{check_scope_order, is_ok}

abbrev pub the_target : Target
the_target = record {
  scheme = "https";
  host = Host.domain (codes "a.io");
  port = 443;
  path = codes "/x";
  query = none;
  canonical_url = codes "https://a.io/x";
}

-- The time of the day is the instant itself.
abbrev utc : Zone
utc = record { to_local = λ n. record { date = 1; time = n }; to_utc = λ d t fold. t }

abbrev pub the_platform : Platform
the_platform = record {
  intent_valid = λ i. true;
  policy_digest = λ body key. "h";
  canonicalize_url = λ text. some the_target;
  zones = λ name. some utc;
  decision_uuid = λ i hash outcome reasons ids. "u";
}

abbrev the_rule : AssetRule
the_rule = record {
  rule_id = "r";
  effect = Effect.allow;
  matcher = Matcher.wildcard_domain (codes "io") false;
  path_prefix = none;
  specificity = 3;
  allowed_ports = 443 ∷ [];
  allowed_paths = [];
}

abbrev other_rule : AssetRule
other_rule = record {
  rule_id = "q";
  effect = Effect.deny;
  matcher = Matcher.domain (codes "b.io");
  path_prefix = none;
  specificity = 5;
  allowed_ports = [];
  allowed_paths = [];
}

abbrev pub the_policy : Policy
the_policy = record {
  body = record {
    engagement_id = "e";
    not_before = some 0;
    not_after = some 100;
    asset_rules = the_rule ∷ other_rule ∷ [];
    capability_rules =
        record { rule_id = "c"; capability = "network.http.get"; effect = Effect.allow } ∷ [];
    testing_schedule = none;
    account_constraints = none;
    other_keys = "{}";
  };
  content_hash = some "h";
  signer_key_id = none;
}

abbrev pub the_intent : Intent
the_intent = record {
  intent_id = "i";
  assessment_id = "e";
  policy_hash = "h";
  capability = "network.http.get";
  target = the_target;
  method = some "GET";
  account_reference = none;
  created_at = some 1;
  expires_at = some 50;
}

evaluate-allowed_example :
    outcome_of (evaluate the_platform the_intent the_policy true false 7) ≡ some allowed
    ↔ Permitted the_platform the_intent the_policy true false 7
evaluate-allowed_example = evaluate-allowed the_platform the_intent the_policy true false 7

evaluate_total_example :
    (d : Decision) × (evaluate the_platform the_intent the_policy true false 7 ≡ some d)
    × Says the_platform the_intent the_policy true false 7 d
evaluate_total_example =
    evaluate_total the_platform the_intent the_policy true false 7
      (λ e. cc, λ e. cc, λ e. cc, λ e. cc)

abbrev the_schedule : Schedule
the_schedule = record {
  allowed_windows = record { timezone = "UTC"; days = 0 ∷ []; start_time = 0; end_time = 2 } ∷ [];
  blackout_periods = record { starts_at = some 90_000_000; ends_at = some 95_000_000 } ∷ [];
}

abbrev zones : String → Option Zone
zones name = some utc

deadline_test : testing_schedule_deadline zones the_schedule 5 ≡ some 90_000_000
unfolding testing_schedule_deadline blackout_starts window_ends window_end end_candidates earliest
    least greatest capped deadline_of ℕ_discrete
deadline_test = refl

testing_schedule_deadline_safe_example :
    (5 < 90_000_000)
    × All (λ p. (u : ℕ) → 5 ≤ u → u < 90_000_000 → ¬ Covers p u) the_schedule.blackout_periods
    × Any (λ w. (e : ℕ) × OpenUntil zones 5 w e × (90_000_000 ≤ e)) the_schedule.allowed_windows
testing_schedule_deadline_safe_example =
    testing_schedule_deadline_safe zones the_schedule 5 90_000_000 deadline_test

testing_schedule_allows_iff_example : testing_schedule_allows zones the_schedule 5 ≡ true ↔ (
    All (λ p. Past 5 p ⊎ Future 5 p) the_schedule.blackout_periods
    × All (Known zones) the_schedule.allowed_windows
    × Any (IsOpen zones 5) the_schedule.allowed_windows)
testing_schedule_allows_iff_example = testing_schedule_allows_iff zones the_schedule 5

check_scope_order_example :
    is_ok (check_scope (the_rule ∷ other_rule ∷ []) the_target)
    ≡ is_ok (check_scope (other_rule ∷ the_rule ∷ []) the_target)
check_scope_order_example =
    check_scope_order (the_rule ∷ other_rule ∷ []) (other_rule ∷ the_rule ∷ []) the_target
      (Perm.swap other_rule the_rule [])

normalize_percent_canonical_example :
    (normalize_percent true (codes "/%7e") ≡ ok (codes "/~") → IsNormal true (codes "/~"))
    × (normalize_percent true (codes "/%7e") ≡ ok (codes "/%7e") ↔ IsNormal true (codes "/%7e"))
normalize_percent_canonical_example = normalize_percent_canonical true (codes "/%7e") (codes "/~")

escaped_test : normalize_percent true (codes "/%7e%3f") ≡ ok (codes "/~%3F")
unfolding normalize_percent ℕ_discrete
escaped_test = refl

abbrev the_network : Network
the_network = record { family = Family.v4; network_address = 167772160; prefix_length = 8 }
