-- ===== src/Budget.antt =====
-- services/core/src/pentai_core: ai_provider_config.py and ai_budget.py, the budget of a provider of
-- models and the ledger of the reservations made against it.
pub mod Provider
pub mod Ledger
