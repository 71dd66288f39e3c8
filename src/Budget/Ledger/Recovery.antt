-- ===== src/Budget/Ledger/Recovery.antt =====
-- ai_budget.py: `AIBudgetLedger.recover`, a ledger from the records that one had before.
mod Balance
pub mod Soundness
use Prim.Native.Nat.{max, Ordering}
use Prim.Native.String.{compare}
use pent_ai.Prelude.{
  ℕ, suc, ◌+◌, ◌-◌, Bool, true, false, not, ◌&&◌, ◌||◌, Option, none, some, String, List, [], ◌∷◌,
  ◌++◌, ◌==◌, string_eq, nat_eq, if◌then◌else◌, ltb, leb, contains, map, Result, ok, err, ◌>>=◌,
  ◌>>◌, guard, or_fail, Dict, lookup, insert,
}
use pent_ai.Budget.Provider.{Field, Amounts, Configuration, ProviderPolicy}
use pent_ai.Budget.Ledger.{
  Ledger, Reservation, Platform, BudgetError, Checked, recovery_invalid, recovery_ambiguous,
  recovery_exceeded, recovery_mismatch, timestamp_unreadable, key_missing, clock_invalid, released,
  is_reserved, is_released, max_reservation_lifetime, is_nonempty, exceeds, create, finalized,
}

-- The time of finalization, where a record has one, does not lie before its creation.
unfoldable pub check_finalized_at : Option (Option ℕ) → ℕ → Checked Bool
check_finalized_at none created_at = ok true
check_finalized_at (some t) created_at =
    or_fail t timestamp_unreadable >>= λ finalized_at. ok (leb created_at finalized_at)

-- `_validate_record_authority`
unfoldable pub validate_record_authority : Ledger → Reservation → Checked (Unit {0})
validate_record_authority ledger reservation = do
  guard
      (reservation.configuration_id == ledger.configuration.configuration_id
        && (reservation.registry_id == ledger.policy.registry_id
            && reservation.registry_revision == ledger.policy.registry_revision))
      recovery_mismatch
  created_at ← or_fail reservation.created_at timestamp_unreadable
  expires_at ← or_fail reservation.expires_at timestamp_unreadable
  in_order ← check_finalized_at reservation.finalized_at created_at
  guard (ltb created_at expires_at && leb (expires_at - created_at) max_reservation_lifetime)
      recovery_invalid
  limit ← or_fail ledger.configuration.expires_at timestamp_unreadable
  guard (leb expires_at limit && (is_nonempty reservation.amounts && in_order)) recovery_invalid

-- The loop's variables.
pub record Recovering : Type 0 where
  pub ledger : Ledger
  pub seen_versions : List ℕ
  pub expired_reservations : List String

unfoldable pub has_key : {V : Type 0} → String → Dict String V → Bool
has_key k [] = false
has_key k ((j, v) ∷ d) = k == j || has_key k d

-- The tests on a record that do not read its time against the clock.
unfoldable pub check_record : Platform → Recovering → Reservation → Checked (Unit {0})
check_record platform state reservation = do
  guard (platform.record_valid reservation) recovery_invalid
  validate_record_authority state.ledger reservation
  guard
      (not (
        has_key reservation.reservation_id state.ledger.records
        || (has_key reservation.idempotency_key state.ledger.idempotency
            || contains state.seen_versions reservation.ledger_version)))
      recovery_ambiguous

-- Whether a record is reserved and its time has passed.
unfoldable pub is_expired : Reservation → ℕ → Checked Bool
is_expired reservation instant =
    if is_reserved reservation.state
    then (or_fail reservation.expires_at timestamp_unreadable >>= λ expires_at.
        ok (leb expires_at instant))
    else ok false

-- What is used once the record is counted.
unfoldable pub counted : Amounts → Reservation → Bool → Amounts → Checked Amounts
counted used reservation expired budgets =
    if is_released reservation.state || expired
    then ok used
    else (guard (not (exceeds used reservation.amounts budgets)) recovery_exceeded >>= λ _.
        ok (λ field. used field + reservation.amounts field))

-- The record is stored.
unfoldable pub restored : Recovering → Reservation → Bool → Amounts → Recovering
restored state reservation expired used = record {
  ledger = record state.ledger {
    used = used;
    records = insert reservation.reservation_id reservation state.ledger.records;
    idempotency =
        insert reservation.idempotency_key
          (reservation.request_fingerprint, reservation.reservation_id) state.ledger.idempotency;
    version = max state.ledger.version reservation.ledger_version;
  };
  seen_versions = reservation.ledger_version ∷ state.seen_versions;
  expired_reservations =
      if expired
      then state.expired_reservations ++ (reservation.reservation_id ∷ [])
      else state.expired_reservations;
}

-- One round of the loop over the records.
unfoldable pub restore : Platform → ℕ → Recovering → Reservation → Checked Recovering
restore platform instant state reservation = do
  check_record platform state reservation
  expired ← is_expired reservation instant
  used ← counted state.ledger.used reservation expired state.ledger.configuration.budgets
  ok (restored state reservation expired used)

unfoldable pub restore_all : Platform → ℕ → Recovering → List Reservation → Checked Recovering
restore_all platform instant state [] = ok state
restore_all platform instant state (reservation ∷ rest) = do
  next ← restore platform instant state reservation
  restore_all platform instant next rest

-- `sorted` on the identifiers.
unfoldable pub insert_id : String → List String → List String
insert_id id [] = id ∷ []
insert_id id (j ∷ ids) = elim (compare id j) [
  | Ordering.gt ↦ j ∷ insert_id id ids
  | _ ↦ id ∷ (j ∷ ids)
]

unfoldable pub sorted_ids : List String → List String
sorted_ids [] = []
sorted_ids (id ∷ ids) = insert_id id (sorted_ids ids)

-- One round of the loop over the expired reservations. What is used does not change: it never
-- counted them.
unfoldable pub release_expired : ℕ → Ledger → String → Checked Ledger
release_expired instant ledger id =
    or_fail (lookup id ledger.records) key_missing >>= λ reservation. ok (record ledger {
      version = suc ledger.version;
      records =
          insert id (finalized reservation (suc ledger.version) released instant) ledger.records;
    })

unfoldable pub release_all : ℕ → Ledger → List String → Checked Ledger
release_all instant ledger [] = ok ledger
release_all instant ledger (id ∷ ids) = do
  next ← release_expired instant ledger id
  release_all instant next ids

-- `recover`. The clock is read once by `__init__` and once more.
unfoldable pub recover :
    Platform
    → List Reservation
    → Configuration
    → ProviderPolicy
    → Option ℕ
    → Option ℕ
    → Checked Ledger
recover platform records configuration policy clock clock' = do
  ledger ← create configuration policy clock
  instant ← or_fail clock' clock_invalid
  state ←
      restore_all platform instant
        (record { ledger = ledger; seen_versions = []; expired_reservations = [] }) records
  release_all instant state.ledger (sorted_ids state.expired_reservations)
