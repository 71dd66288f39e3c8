-- ===== src/Workers/Registry.antt =====
-- worker_runtime_registry.py: `DurableWorkerRuntimeRegistry`, over the table of the migrations 0030
-- and 0034. The clock's readings, `none` where it has no time zone, are arguments of a call.
pub mod Schema
pub mod Frames
pub mod History
pub mod Identity
pub mod Races
use pent_ai.Prelude.{
  ℕ, suc, Bool, true, false, not, ◌&&◌, ◌||◌, Option, none, some, String, List, [], ◌∷◌, Text, ◌==◌,
  string_eq, nat_eq, if◌then◌else◌, leb, length, Dict, lookup, insert, Result, ok, err, ◌>>=◌, ◌>>◌,
  guard, or_fail,
}
use pent_ai.Workers.Names.{is_identifier, is_container_id, is_digest, strip_spaces}
use pent_ai.Workers.Containment.{Attestation, validate_containment_attestation, ContainmentError}
use pent_ai.Workers.Registry.Schema.{
  RegistryError, registration_denied, registration_conflict, runtime_invalid, runtime_conflict,
  runtime_inactive, termination_invalid, runtime_race, runtime_not_found, clock_invalid, Status,
  launching, running, termination_requested, terminated, failed, same_status, Mode, deferred,
  podman_direct, Row, Table, insert_row, update_row, is_none,
}

abbrev pub Answer : Type 0
Answer = Table × Result RegistryError Row

-- `_document`
unfoldable pub document : Table → String → Result RegistryError Row
document table worker_id = or_fail (lookup worker_id table) runtime_not_found

-- `_timestamp`
abbrev pub timestamp : Option ℕ → Result RegistryError ℕ
timestamp clock = or_fail clock clock_invalid

-- The tests that both registrations make on the evidence.
unfoldable pub evidence_valid : String → Attestation → String → Bool
evidence_valid worker_id containment image_digest =
    is_identifier worker_id
    && (names containment.runtime_instance_id
        && (names containment.worker_gateway_network_id
            && (is_digest image_digest && containment.network_role == "worker_gateway")))
  where
    names : Option String → Bool
    names none = false
    names (some s) = is_identifier s

abbrev or_empty : Option String → String
or_empty none = ""
or_empty (some s) = s

-- The row that a registration writes.
unfoldable pub new_row : Attestation → String → String → Option String → Mode → ℕ → Row
new_row containment runtime image_digest gateway mode created_at = record {
  containment_attestation_id = containment.attestation_id;
  oci_runtime = runtime;
  runtime_instance_id = or_empty containment.runtime_instance_id;
  worker_gateway_network_id = or_empty containment.worker_gateway_network_id;
  image_digest = image_digest;
  container_id = none;
  status = launching;
  created_at = created_at;
  updated_at = created_at;
  termination_reason = none;
  execution_enabled = false;
  version = 1;
  gateway_container_id = gateway;
  attachment_mode = mode;
}

abbrev pub denied : Result ContainmentError (Unit {0}) → Result RegistryError (Unit {0})
denied (ok u) = ok u
denied (err e) = err registration_denied

abbrev pub inserted : Table → String → Result RegistryError Table → Answer
inserted table worker_id (ok next) = (next, document next worker_id)
inserted table worker_id (err e) = (table, err e)

-- `register_launch_intent`
unfoldable pub launch_inserted :
    Table → String → Attestation → String → Option ℕ → Option ℕ → Result RegistryError Table
launch_inserted table worker_id containment image_digest clock clock' = do
  denied (validate_containment_attestation containment clock)
  guard (evidence_valid worker_id containment image_digest) registration_denied
  created_at ← timestamp clock'
  or_fail
      (insert_row table worker_id
        (new_row containment containment.runtime image_digest none deferred created_at))
      registration_conflict

unfoldable pub register_launch_intent :
    Table → String → Attestation → String → Option ℕ → Option ℕ → Answer
register_launch_intent table worker_id containment image_digest clock clock' =
    inserted table worker_id (launch_inserted table worker_id containment image_digest clock clock')

-- `register_direct_attachment_intent`
unfoldable pub direct_inserted :
    Table
    → String
    → Attestation
    → String
    → String
    → Option ℕ
    → Option ℕ
    → Result RegistryError Table
direct_inserted table worker_id containment image_digest gateway clock clock' = do
  denied (validate_containment_attestation containment clock)
  guard
      (containment.runtime == "podman"
        && (evidence_valid worker_id containment image_digest && is_container_id gateway))
      registration_denied
  created_at ← timestamp clock'
  or_fail
      (insert_row table worker_id
        (new_row containment "podman" image_digest (some gateway) podman_direct created_at))
      registration_conflict

unfoldable pub register_direct_attachment_intent :
    Table → String → Attestation → String → String → Option ℕ → Option ℕ → Answer
register_direct_attachment_intent table worker_id containment image_digest gateway clock clock' =
    inserted table worker_id
      (direct_inserted table worker_id containment image_digest gateway clock clock')

-- The end of an update: `rowcount != 1` is the error that the caller names.
abbrev pub updated : Table → String → RegistryError → Result RegistryError (Option Table) → Answer
updated table worker_id missing (err e) = (table, err e)
updated table worker_id missing (ok none) = (table, err missing)
updated table worker_id missing (ok (some next)) = (next, document next worker_id)

-- `except sqlite3.IntegrityError`
abbrev pub integrity_as :
    RegistryError → Result RegistryError (Option Table) → Result RegistryError (Option Table)
integrity_as e (ok r) = ok r
integrity_as e (err x) = err e

unfoldable pub run_row : String → ℕ → Row → Row
run_row container_id updated_at row = record row {
  container_id = some container_id;
  status = running;
  updated_at = updated_at;
  version = suc row.version;
}

unfoldable pub can_run : Row → Bool
can_run row = same_status row.status launching && is_none row.container_id

-- `mark_running`: its statement, and what it makes of the outcome.
unfoldable pub run_attempt :
    Table → String → String → Option ℕ → Result RegistryError (Option Table)
run_attempt table worker_id container_id clock = do
  guard (is_identifier worker_id && is_container_id container_id) runtime_invalid
  updated_at ← timestamp clock
  integrity_as runtime_conflict
      (update_row table worker_id can_run (run_row container_id updated_at) true)

unfoldable pub mark_running : Table → String → String → Option ℕ → Answer
mark_running table worker_id container_id clock =
    updated table worker_id runtime_inactive (run_attempt table worker_id container_id clock)

unfoldable pub request_row : Text → ℕ → Row → Row
request_row reason updated_at row = record row {
  status = termination_requested;
  termination_reason = some reason;
  updated_at = updated_at;
  version = suc row.version;
}

unfoldable pub can_request : ℕ → Row → Bool
can_request expected_version row =
    row.version == expected_version
    && (same_status row.status launching
        || (same_status row.status running || same_status row.status failed))

unfoldable pub discover_row : String → Text → ℕ → Row → Row
unfolding request_row
discover_row container_id reason updated_at row = record (request_row reason updated_at row) {
  container_id = some container_id;
}

unfoldable pub can_discover : ℕ → Row → Bool
can_discover expected_version row =
    row.version == expected_version
    && (same_status row.status launching && is_none row.container_id)

unfoldable pub request_valid : String → ℕ → Text → Option String → Bool
request_valid worker_id expected_version reason discovered =
    is_identifier worker_id
    && (leb 1 expected_version
        && (not (length reason == 0) && (leb (length reason) 256 && discovered_valid discovered)))
  where
    discovered_valid : Option String → Bool
    discovered_valid none = true
    discovered_valid (some container_id) = is_container_id container_id

-- The statement that `request_termination` executes.
abbrev pub request_update :
    Table → String → ℕ → Text → ℕ → Option String → Result RegistryError (Option Table)
request_update table worker_id expected_version reason updated_at none =
    update_row table worker_id (can_request expected_version) (request_row reason updated_at) false
request_update table worker_id expected_version reason updated_at (some container_id) =
    update_row table worker_id (can_discover expected_version)
      (discover_row container_id reason updated_at) true

-- `request_termination`. An `IntegrityError` is not caught here.
unfoldable pub request_attempt :
    Table → String → ℕ → Text → Option String → Option ℕ → Result RegistryError (Option Table)
request_attempt table worker_id expected_version reason discovered clock = do
  guard (request_valid worker_id expected_version reason discovered) termination_invalid
  updated_at ← timestamp clock
  request_update table worker_id expected_version reason updated_at discovered

unfoldable pub request_termination : Table → String → ℕ → Text → Option String → Option ℕ → Answer
request_termination table worker_id expected_version reason discovered clock =
    updated table worker_id runtime_race
      (request_attempt table worker_id expected_version (strip_spaces reason) discovered clock)

unfoldable pub final_row : Bool → ℕ → Row → Row
final_row succeeded updated_at row = record row {
  status = if succeeded then terminated else failed;
  updated_at = updated_at;
  version = suc row.version;
}

unfoldable pub can_finalize : ℕ → Row → Bool
can_finalize expected_version row =
    row.version == expected_version && same_status row.status termination_requested

-- `finalize_termination`
unfoldable pub finalize_attempt :
    Table → String → ℕ → Bool → Option ℕ → Result RegistryError (Option Table)
finalize_attempt table worker_id expected_version succeeded clock = do
  guard (is_identifier worker_id && leb 1 expected_version) termination_invalid
  updated_at ← timestamp clock
  update_row table worker_id (can_finalize expected_version) (final_row succeeded updated_at) false

unfoldable pub finalize_termination : Table → String → ℕ → Bool → Option ℕ → Answer
finalize_termination table worker_id expected_version succeeded clock =
    updated table worker_id runtime_race
      (finalize_attempt table worker_id expected_version succeeded clock)
