-- ===== src/Budget/Ledger.antt =====
-- ai_budget.py: `AIBudgetLedger`. The lock makes each call atomic, so a call is a function from the
-- ledger to the ledger and a result. The clock's reading, `none` where it has no time zone, and the
-- fresh UUID are arguments.
pub mod Accounts
pub mod Invariant
pub mod Recovery
pub mod Idempotency
pub mod Traces
use Prim.Native.Nat.{max, Ordering}
use Prim.Native.String.{compare}
use pent_ai.Prelude.{
  ℕ, suc, ◌+◌, ◌-◌, Bool, true, false, not, ◌&&◌, ◌||◌, Option, none, some, String, List, [], ◌∷◌,
  ◌==◌, string_eq, nat_eq, if◌then◌else◌, ltb, leb, contains, Result, ok, err, ◌>>=◌, ◌>>◌, guard,
  or_fail, Dict, lookup, insert,
}
use pent_ai.Budget.Provider.{
  Field, Amounts, some_field, Configuration, ProviderPolicy, ProviderError,
  validate_provider_configuration,
}

pub data BudgetError : Type 0 where
  request_malformed idempotency_conflict version_stale request_stale amount_invalid : BudgetError
  exceeded record_invalid reservation_unknown state_conflict reservation_expired : BudgetError
  authority_mismatch clock_invalid : BudgetError
  recovery_invalid recovery_ambiguous recovery_exceeded recovery_mismatch : BudgetError
  provider : ProviderError → BudgetError
  -- a `ValueError` of `parse_time` and a `KeyError` of a dict
  timestamp_unreadable key_missing : BudgetError

pub data State : Type 0 where
  reserved committed released : State

State-discrete : Discrete State
State-discrete = hlevel

abbrev pub is_reserved : State → Bool
is_reserved reserved = true
is_reserved _ = false

abbrev pub is_released : State → Bool
is_released released = true
is_released _ = false

abbrev pub same_state : State → State → Bool
same_state reserved reserved = true
same_state committed committed = true
same_state released released = true
same_state _ _ = false

pub record Reservation : Type 0 where
  pub reservation_id : String
  pub configuration_id : String
  pub registry_id : String
  pub registry_revision : ℕ
  pub idempotency_key : String
  pub request_fingerprint : String
  pub ledger_version : ℕ
  pub state : State
  pub amounts : Amounts
  pub created_at : Option ℕ
  pub expires_at : Option ℕ
  -- `None`, or a timestamp
  pub finalized_at : Option (Option ℕ)

-- A request without its `expected_ledger_version`: what `_fingerprint` hashes.
pub record Replay : Type 0 where
  pub well_formed : Bool
  pub configuration_id : String
  pub registry_id : String
  pub registry_revision : ℕ
  pub idempotency_key : String
  pub amounts : Amounts
  pub requested_at : Option ℕ
  pub expires_at : Option ℕ

pub record Request : Type 0 where
  pub replay : Replay
  pub open replay use *
  pub expected_ledger_version : ℕ

pub record Ledger : Type 0 where
  pub configuration : Configuration
  pub policy : ProviderPolicy
  pub version : ℕ
  pub records : Dict String Reservation
  pub idempotency : Dict String (String × String)
  pub used : Amounts

-- The hash of a request, and the schema's verdict on a record.
pub record Platform : Type 0 where
  pub digest : Replay → String
  pub record_valid : Reservation → Bool

abbrev pub Outcome : Type 0
Outcome = Result BudgetError Reservation

abbrev pub Checked {ℓ} : Type ℓ → Type ℓ
Checked A = Result BudgetError A

-- `timedelta(minutes=5)` and `timedelta(minutes=1)`
abbrev pub max_reservation_lifetime : ℕ
max_reservation_lifetime = 300_000_000

abbrev pub max_request_age : ℕ
max_request_age = 60_000_000

abbrev pub from_provider : Result ProviderError (Unit {0}) → Checked (Unit {0})
from_provider (ok u) = ok u
from_provider (err e) = err (provider e)

-- `__init__`: a ledger with no reservation, for a configuration that is valid now.
unfoldable pub create : Configuration → ProviderPolicy → Option ℕ → Checked Ledger
create configuration policy clock = do
  now ← or_fail clock clock_invalid
  from_provider (validate_provider_configuration configuration policy now)
  ok (record {
    configuration = configuration;
    policy = policy;
    version = 0;
    records = [];
    idempotency = [];
    used = λ field. 0;
  })

-- `_validate_current_authority`
unfoldable pub validate_current_authority : Ledger → Request → ℕ → Checked (Unit {0})
validate_current_authority ledger request now = do
  from_provider (validate_provider_configuration ledger.configuration ledger.policy now)
  guard
      (request.configuration_id == ledger.configuration.configuration_id
        && (request.registry_id == ledger.policy.registry_id
            && request.registry_revision == ledger.policy.registry_revision))
      authority_mismatch

-- The age of the request and the lifetime that it asks for.
unfoldable pub check_request_times : Ledger → Request → ℕ → Checked (Unit {0})
check_request_times ledger request now = do
  requested_at ← or_fail request.requested_at timestamp_unreadable
  expires_at ← or_fail request.expires_at timestamp_unreadable
  guard (leb requested_at now && leb (now - requested_at) max_request_age) request_stale
  guard
      (ltb now expires_at
        && (ltb requested_at expires_at
            && leb (expires_at - requested_at) max_reservation_lifetime))
      request_stale
  limit ← or_fail ledger.configuration.expires_at timestamp_unreadable
  guard (leb expires_at limit) request_stale

-- The request asks for something.
unfoldable pub is_nonempty : Amounts → Bool
is_nonempty amounts = some_field (λ field. ltb 0 (amounts field))

-- An amount on top of what is used exceeds a budget.
unfoldable pub exceeds : Amounts → Amounts → Amounts → Bool
exceeds used amounts budgets =
    some_field (λ field. ltb (budgets field) (used field + amounts field))

unfoldable pub check_amounts : Ledger → Request → Checked (Unit {0})
check_amounts ledger request = do
  guard (is_nonempty request.amounts) amount_invalid
  guard (not (exceeds ledger.used request.amounts ledger.configuration.budgets)) exceeded

-- The checks of `reserve` on a key that is new, up to the first change of the ledger.
unfoldable pub check_request : Ledger → Request → Option ℕ → Checked (Unit {0})
check_request ledger request clock = do
  now ← or_fail clock clock_invalid
  validate_current_authority ledger request now
  guard (request.expected_ledger_version == ledger.version) version_stale
  check_request_times ledger request now
  check_amounts ledger request

-- The record that `reserve` makes at a version.
unfoldable pub new_record : Platform → Request → ℕ → String → Reservation
new_record platform request version uuid = record {
  reservation_id = uuid;
  configuration_id = request.configuration_id;
  registry_id = request.registry_id;
  registry_revision = request.registry_revision;
  idempotency_key = request.idempotency_key;
  request_fingerprint = platform.digest request.replay;
  ledger_version = version;
  state = reserved;
  amounts = request.amounts;
  created_at = request.requested_at;
  expires_at = request.expires_at;
  finalized_at = none;
}

-- The changes that `reserve` makes once its checks have passed. The version is raised before the
-- schema rules on the record.
unfoldable pub admit : Platform → Ledger → Request → String → Ledger × Outcome
admit platform ledger request uuid =
    let raised = record ledger { version = suc ledger.version } in
    let reservation = new_record platform request (suc ledger.version) uuid in
    if not (platform.record_valid reservation) then (raised, err record_invalid) else (
      record raised {
        used = λ field. ledger.used field + request.amounts field;
        records = insert uuid reservation ledger.records;
        idempotency =
            insert request.idempotency_key (platform.digest request.replay, uuid)
              ledger.idempotency;
      },
      ok reservation,
    )

-- The answer to a key that the ledger knows.
unfoldable pub answer_known : Platform → Ledger → Request → String × String → Outcome
answer_known platform ledger request (fingerprint, reservation_id) =
    guard (fingerprint == platform.digest request.replay) idempotency_conflict >>= λ _.
    or_fail (lookup reservation_id ledger.records) key_missing

abbrev pub admit_checked :
    Platform → Ledger → Request → String → Checked (Unit {0}) → Ledger × Outcome
admit_checked platform ledger request uuid (ok u) = admit platform ledger request uuid
admit_checked platform ledger request uuid (err e) = (ledger, err e)

abbrev pub reserve_known :
    Platform → Ledger → Request → Option ℕ → String → Option (String × String) → Ledger × Outcome
reserve_known platform ledger request clock uuid (some known) =
    (ledger, answer_known platform ledger request known)
reserve_known platform ledger request clock uuid none =
    admit_checked platform ledger request uuid (check_request ledger request clock)

-- `reserve`
unfoldable pub reserve : Platform → Ledger → Request → Option ℕ → String → Ledger × Outcome
reserve platform ledger request clock uuid =
    if not request.well_formed
    then (ledger, err request_malformed)
    else reserve_known platform ledger request clock uuid
        (lookup request.idempotency_key ledger.idempotency)

-- The checks of `_finalize` on a record that is reserved; the result is the time.
unfoldable pub check_finalize : Ledger → Reservation → ℕ → State → Option ℕ → Checked ℕ
check_finalize ledger reservation expected_version target clock = do
  guard (expected_version == ledger.version) version_stale
  now ← or_fail clock clock_invalid
  from_provider (validate_provider_configuration ledger.configuration ledger.policy now)
  if same_state target committed
      then (or_fail reservation.expires_at timestamp_unreadable >>= λ expires_at.
          guard (ltb now expires_at) reservation_expired >>= λ _. ok now)
      else ok now

abbrev pub refund : State → Amounts → Amounts → Amounts
refund target used amounts field =
    if is_released target then used field - amounts field else used field

unfoldable pub finalized : Reservation → ℕ → State → ℕ → Reservation
finalized reservation version target now = record reservation {
  ledger_version = version;
  state = target;
  finalized_at = some (some now);
}

-- The changes of `_finalize`.
unfoldable pub settle : Ledger → String → Reservation → State → ℕ → Ledger × Outcome
settle ledger reservation_id reservation target now =
    let updated = finalized reservation (suc ledger.version) target now in
    (
      record ledger {
        version = suc ledger.version;
        used = refund target ledger.used reservation.amounts;
        records = insert reservation_id updated ledger.records;
      },
      ok updated,
    )

abbrev pub settle_checked : Ledger → String → Reservation → State → Checked ℕ → Ledger × Outcome
settle_checked ledger reservation_id reservation target (ok now) =
    settle ledger reservation_id reservation target now
settle_checked ledger reservation_id reservation target (err e) = (ledger, err e)

abbrev pub finalize_found :
    Ledger → String → ℕ → State → Option ℕ → Option Reservation → Ledger × Outcome
finalize_found ledger reservation_id expected_version target clock none =
    (ledger, err reservation_unknown)
finalize_found ledger reservation_id expected_version target clock (some reservation) =
    if same_state reservation.state target
    then (ledger, ok reservation)
    else if not (is_reserved reservation.state)
    then (ledger, err state_conflict)
    else settle_checked ledger reservation_id reservation target
        (check_finalize ledger reservation expected_version target clock)

-- `_finalize`
unfoldable pub finalize : Ledger → String → ℕ → State → Option ℕ → Ledger × Outcome
finalize ledger reservation_id expected_version target clock =
    finalize_found ledger reservation_id expected_version target clock
      (lookup reservation_id ledger.records)

unfoldable pub commit : Ledger → String → ℕ → Option ℕ → Ledger × Outcome
unfolding finalize
commit ledger reservation_id expected_version clock =
    finalize ledger reservation_id expected_version committed clock

unfoldable pub release : Ledger → String → ℕ → Option ℕ → Ledger × Outcome
unfolding finalize
release ledger reservation_id expected_version clock =
    finalize ledger reservation_id expected_version released clock
