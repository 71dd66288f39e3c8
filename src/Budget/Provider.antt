-- ===== src/Budget/Provider.antt =====
-- ai_provider_config.py: `validate_provider_configuration`. The schema validator is not the
-- program's: `well_formed` is its verdict. Times are instants in microseconds, `none` where
-- `parse_time` raises `ValueError`.
use pent_ai.Prelude.{
  ℕ, ◌-◌, Bool, not, ◌&&◌, Option, String, List, [], ◌∷◌, ◌++◌, ◌==◌, string_eq, if◌then◌else◌, ltb,
  leb, contains, any, all, Text, codes, starts_with, list_eq, nat_eq, Result, ok, ◌>>=◌, ◌>>◌,
  guard, or_fail,
}

-- The keys of a budget, `_FIELDS` of ai_budget.py, in its order.
pub data Field : Type 0 where
  input_tokens output_tokens requests cost_microusd runtime_seconds : Field

abbrev pub fields : List Field
fields = input_tokens ∷ output_tokens ∷ requests ∷ cost_microusd ∷ runtime_seconds ∷ []

-- An amount for each field.
abbrev pub Amounts : Type 0
Amounts = Field → ℕ

-- `any(test(field) for field in _FIELDS)`
abbrev pub some_field : (Field → Bool) → Bool
some_field test = any test fields

pub data ProviderError : Type 0 where
  configuration_malformed configuration_stale registry_stale provider_unknown : ProviderError
  provider_type_mismatch model_unknown remote_provider_disabled : ProviderError
  secret_reference_invalid privacy_classification_denied provider_budget_exceeded : ProviderError
  provider_execution_forbidden : ProviderError
  timestamp_unreadable : ProviderError

pub record Configuration : Type 0 where
  pub well_formed : Bool
  pub configuration_id : String
  pub configured_at : Option ℕ
  pub expires_at : Option ℕ
  pub provider_id : String
  pub model_id : String
  pub provider_type : String
  pub remote_provider_opt_in : Bool
  pub secret_ref : Text
  pub allowed_input_classifications : List String
  pub budgets : Amounts
  pub execution_enabled : Bool

pub record ProviderPolicy : Type 0 where
  pub registry_id : String
  pub registry_revision : ℕ
  pub registry_expires_at : ℕ
  pub approved_models : String → Option (List String)
  pub provider_types : String → Option String
  pub allowed_input_classifications : String → Option (List String)
  pub budget_ceilings : Amounts
  pub remote_providers_enabled : Bool
  pub max_configuration_lifetime : ℕ

abbrev pub Validation {ℓ} : Type ℓ → Type ℓ
Validation A = Result ProviderError A

-- `f"secretref://provider/{provider_id}/"`
abbrev pub secret_prefix : String → Text
secret_prefix provider_id = codes "secretref://provider/" ++ (codes provider_id ++ codes "/")

-- `_FORBIDDEN_MODEL_INPUTS`
abbrev pub forbidden_inputs : List String
forbidden_inputs = "secret" ∷ "restricted_raw_evidence" ∷ []

-- The times of the document against the clock, the policy's lifetime and the registry.
unfoldable pub check_times : Configuration → ProviderPolicy → ℕ → Validation (Unit {0})
check_times document policy now = do
  configured_at ← or_fail document.configured_at timestamp_unreadable
  expires_at ← or_fail document.expires_at timestamp_unreadable
  guard (leb configured_at now && ltb now expires_at) configuration_stale
  guard
      (ltb configured_at expires_at
        && leb (expires_at - configured_at) policy.max_configuration_lifetime)
      configuration_stale
  guard (ltb now policy.registry_expires_at && leb expires_at policy.registry_expires_at)
      registry_stale

-- The provider and the model against the allowlist.
unfoldable pub check_provider : Configuration → ProviderPolicy → Validation (Unit {0})
check_provider document policy = do
  models ← or_fail (policy.approved_models document.provider_id) provider_unknown
  expected ← or_fail (policy.provider_types document.provider_id) provider_unknown
  guard (expected == document.provider_type) provider_type_mismatch
  guard (contains models document.model_id) model_unknown

unfoldable pub check_remote : Configuration → ProviderPolicy → Validation (Unit {0})
check_remote document policy =
    if document.provider_type == "approved_remote"
    then (guard (policy.remote_providers_enabled && document.remote_provider_opt_in)
          remote_provider_disabled
        >> guard (starts_with document.secret_ref (secret_prefix document.provider_id))
            secret_reference_invalid)
    else ok tt

unfoldable pub check_inputs : Configuration → ProviderPolicy → Validation (Unit {0})
check_inputs document policy = do
  guard (not (any (contains forbidden_inputs) document.allowed_input_classifications))
      privacy_classification_denied
  permitted ←
      or_fail (policy.allowed_input_classifications document.provider_id)
        privacy_classification_denied
  guard (all (contains permitted) document.allowed_input_classifications)
      privacy_classification_denied

unfoldable pub validate_provider_configuration :
    Configuration → ProviderPolicy → ℕ → Validation (Unit {0})
validate_provider_configuration document policy now = do
  guard document.well_formed configuration_malformed
  check_times document policy now
  check_provider document policy
  check_remote document policy
  check_inputs document policy
  guard (not (some_field (λ field. ltb (policy.budget_ceilings field) (document.budgets field))))
      provider_budget_exceeded
  guard (not document.execution_enabled) provider_execution_forbidden
