-- ===== src/Policy.antt =====
-- packages/policy/src/pentai_policy: the policy engine.
pub mod Paths
pub mod Percent
pub mod Document
pub mod Schedule
pub mod Matching
pub mod Evaluator
