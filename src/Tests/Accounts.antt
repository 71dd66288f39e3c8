-- ===== src/Tests/Accounts.antt =====
-- The budget ledger with one reservation.
use pent_ai.Prelude.{
  ◌≤◌, ◌≡◌, refl, true, false, none, some, [], ◌∷◌, codes, string_eq, list_eq, nat_eq, ℕ_discrete,
  lookup, insert, lookup-nil, ok, err,
}
use pent_ai.Budget.Provider.{
  Field, Amounts, Configuration, ProviderPolicy, validate_provider_configuration, check_times,
  check_provider, check_remote, check_inputs,
}
use pent_ai.Budget.Provider
use pent_ai.Budget.Ledger.{
  Ledger, Platform, Request, Reservation, committed, released, create, reserve, finalize,
  new_record, state_conflict, admit, check_request, validate_current_authority, check_request_times,
  check_amounts, is_nonempty, exceeds, check_finalize, settle, finalized,
}
use pent_ai.Budget.Ledger.Accounts.{total}
use pent_ai.Budget.Ledger.Traces.{start, reserves, finalizes, Reach-total-le}
use pent_ai.Budget.Ledger.Recovery.{
  recover, restore_all, restore, check_record, validate_record_authority, check_finalized_at,
  has_key, is_expired, counted, restored, release_all, sorted_ids, insert_id, release_expired,
}
use pent_ai.Budget.Ledger.Recovery.Soundness.{recover-total-le}
use pent_ai.Budget.Ledger.Idempotency.{expecting, reserve_again, finalize_again}

abbrev ten : Amounts
ten field = 10

abbrev four : Amounts
four field = 4

abbrev the_configuration : Configuration
the_configuration = record {
  well_formed = true;
  configuration_id = "c";
  configured_at = some 0;
  expires_at = some 100;
  provider_id = "p";
  model_id = "m";
  provider_type = "local_runtime";
  remote_provider_opt_in = false;
  secret_ref = codes "";
  allowed_input_classifications = "public" ∷ [];
  budgets = ten;
  execution_enabled = false;
}

abbrev the_policy : ProviderPolicy
the_policy = record {
  registry_id = "r";
  registry_revision = 1;
  registry_expires_at = 200;
  approved_models = λ p. some ("m" ∷ []);
  provider_types = λ p. some "local_runtime";
  allowed_input_classifications = λ p. some ("public" ∷ []);
  budget_ceilings = ten;
  remote_providers_enabled = false;
  max_configuration_lifetime = 1000;
}

abbrev the_ledger : Ledger
the_ledger = record {
  configuration = the_configuration;
  policy = the_policy;
  version = 0;
  records = [];
  idempotency = [];
  used = λ field. 0;
}

abbrev the_platform : Platform
the_platform = record { digest = λ r. "d"; record_valid = λ r. true }

abbrev the_request : Request
the_request = record {
  replay = record {
    well_formed = true;
    configuration_id = "c";
    registry_id = "r";
    registry_revision = 1;
    idempotency_key = "k";
    amounts = four;
    requested_at = some 5;
    expires_at = some 50;
  };
  expected_ledger_version = 0;
}

create_test : create the_configuration the_policy (some 5) ≡ ok the_ledger
unfolding create validate_provider_configuration check_times check_provider check_remote
    check_inputs string_eq
create_test = refl

-- A request is granted.
abbrev the_record : Reservation
the_record = new_record the_platform the_request 1 "u"

reserve_test : (reserve the_platform the_ledger the_request (some 6) "u").1 ≡ ok the_record
unfolding reserve check_request validate_current_authority check_request_times check_amounts
    is_nonempty exceeds admit new_record validate_provider_configuration check_times check_provider
    check_remote check_inputs string_eq ℕ_discrete lookup
reserve_test = refl

abbrev after : Ledger
after = (reserve the_platform the_ledger the_request (some 6) "u").0

Reach-total-le_example : total after.records Provider.requests ≤ 10
Reach-total-le_example =
    Reach-total-le the_platform the_configuration the_policy (some 5) the_ledger after create_test
      (reserves the_request (some 6) "u" start (lookup-nil "u")) Provider.requests

reserve_again_example :
    reserve the_platform after (expecting the_request 9) none "v" ≡ (after, ok the_record)
reserve_again_example =
    reserve_again the_platform the_ledger the_request (some 6) none "u" "v" 9 the_record
      reserve_test

abbrev stored : Ledger
stored = record {
  configuration = the_configuration;
  policy = the_policy;
  version = 1;
  records = ("u", the_record) ∷ [];
  idempotency = ("k", ("d", "u")) ∷ [];
  used = four;
}

abbrev committed_record : Reservation
committed_record = finalized the_record 2 committed 7

finalize_test : (finalize stored "u" 1 committed (some 7)).1 ≡ ok committed_record
unfolding finalize check_finalize settle finalized new_record validate_provider_configuration
    check_times check_provider check_remote check_inputs string_eq ℕ_discrete lookup
finalize_test = refl

finalize_again_example :
    finalize (finalize stored "u" 1 committed (some 7)).0 "u" 3 released none
    ≡ ((finalize stored "u" 1 committed (some 7)).0, err state_conflict)
finalize_again_example =
    finalize_again stored "u" 1 3 committed (some 7) none committed_record (λ e. cc) finalize_test
      released (λ e. cc)

-- The ledger that recovers after the reservation has expired.
abbrev recovered : Ledger
recovered = record {
  configuration = the_configuration;
  policy = the_policy;
  version = 2;
  records = ("u", finalized the_record 2 released 60) ∷ [];
  idempotency = ("k", ("d", "u")) ∷ [];
  used = λ field. 0;
}

recover_test :
    recover the_platform (the_record ∷ []) the_configuration the_policy (some 60) (some 60)
    ≡ ok recovered
unfolding recover create restore_all restore check_record validate_record_authority
    check_finalized_at has_key is_expired counted restored release_all sorted_ids insert_id
    release_expired finalized is_nonempty new_record validate_provider_configuration check_times
    check_provider check_remote check_inputs string_eq ℕ_discrete lookup insert
recover_test = refl

recover-total-le_example :
    total (finalize recovered "u" 2 committed (some 61)).0.records Provider.requests ≤ 10
recover-total-le_example =
    recover-total-le the_platform (the_record ∷ []) the_configuration the_policy (some 60) (some 60)
      recovered (finalize recovered "u" 2 committed (some 61)).0 recover_test
      (finalizes "u" 2 committed (some 61) start) Provider.requests
