-- ===== src/Workers/Registry/Schema.antt =====
-- The table `worker_runtime_instances`: its rows, its constraints and its triggers, as the migrations
-- 0030_worker_runtime_registry.sql and 0034_worker_direct_attachment_intents.sql state them.
use pent_ai.Prelude.{
  ℕ, suc, Bool, true, false, not, ◌&&◌, ◌||◌, Option, none, some, String, Text, ◌==◌, string_eq,
  nat_eq, if◌then◌else◌, leb, any, Dict, lookup, insert, Result, ok, err,
}
use pent_ai.Workers.Names.{is_digest}

pub data RegistryError : Type 0 where
  registration_denied registration_conflict runtime_invalid runtime_conflict : RegistryError
  runtime_inactive termination_invalid runtime_race runtime_not_found : RegistryError
  clock_invalid : RegistryError
  -- a `sqlite3.IntegrityError` that is not caught
  integrity : RegistryError

pub data Status : Type 0 where
  launching running termination_requested terminated failed : Status

abbrev pub same_status : Status → Status → Bool
same_status launching launching = true
same_status running running = true
same_status termination_requested termination_requested = true
same_status terminated terminated = true
same_status failed failed = true
same_status _ _ = false

pub data Mode : Type 0 where
  deferred podman_direct : Mode

abbrev pub is_direct : Mode → Bool
is_direct podman_direct = true
is_direct deferred = false

abbrev pub is_none {ℓ} : {A : Type ℓ} → Option A → Bool
is_none none = true
is_none (some a) = false

pub record Row : Type 0 where
  pub containment_attestation_id : String
  pub oci_runtime : String
  pub runtime_instance_id : String
  pub worker_gateway_network_id : String
  pub image_digest : String
  pub container_id : Option String
  pub status : Status
  pub created_at : ℕ
  pub updated_at : ℕ
  pub termination_reason : Option Text
  pub execution_enabled : Bool
  pub version : ℕ
  pub gateway_container_id : Option String
  pub attachment_mode : Mode

abbrev pub Table : Type 0
Table = Dict String Row

-- The statuses of the partial index and of the recovery's query
abbrev pub is_active : Status → Bool
is_active terminated = false
is_active _ = true

-- `worker_runtime_status_transition`
unfoldable pub transition_allowed : Status → Status → Bool
transition_allowed launching terminated = false
transition_allowed launching _ = true
transition_allowed running termination_requested = true
transition_allowed running failed = true
transition_allowed running running = true
transition_allowed running _ = false
transition_allowed termination_requested terminated = true
transition_allowed termination_requested failed = true
transition_allowed termination_requested termination_requested = true
transition_allowed termination_requested _ = false
transition_allowed failed termination_requested = true
transition_allowed failed terminated = true
transition_allowed failed failed = true
transition_allowed failed _ = false
transition_allowed terminated terminated = true
transition_allowed terminated _ = false

abbrev pub same_some : Option String → Option String → Bool
same_some (some a) (some b) = a == b
same_some _ _ = false

-- Two rows that the unique indexes do not let stand together: one container, or one identity while
-- both are active.
unfoldable pub rows_clash : Row → Row → Bool
rows_clash row other =
    same_some row.container_id other.container_id
    || (is_active row.status
        && (is_active other.status
            && (row.runtime_instance_id == other.runtime_instance_id
                && row.worker_gateway_network_id == other.worker_gateway_network_id)))

-- Another row of the table clashes with the row of a worker.
unfoldable pub conflicting : String → Row → Table → Bool
conflicting worker_id row table =
    any (λ (other_id, other). not (other_id == worker_id) && rows_clash row other) table

-- The checks of the columns, and the trigger `worker_runtime_direct_attachment_identity`.
unfoldable pub row_valid : Row → Bool
row_valid row =
    (row.oci_runtime == "docker" || row.oci_runtime == "podman")
    && (is_digest row.image_digest
        && (not row.execution_enabled
            && (leb 1 row.version
                && (if is_direct row.attachment_mode
                    then not (is_none row.gateway_container_id) && row.oci_runtime == "podman"
                    else is_none row.gateway_container_id))))

-- `INSERT`; `none` is an `IntegrityError`. The primary key is the worker.
unfoldable pub insert_row : Table → String → Row → Option Table
insert_row table worker_id row =
    if is_none (lookup worker_id table) && (row_valid row && not (conflicting worker_id row table))
    then some (insert worker_id row table)
    else none

-- The triggers on an update: the version, the status, and the container where the statement sets it.
unfoldable pub triggers_pass : Row → Row → Bool → Bool
triggers_pass old new sets_container =
    new.version == suc old.version
    && (transition_allowed old.status new.status
        && (not sets_container || (is_none old.container_id && not (is_none new.container_id))))

abbrev pub update_found :
    Table
    → String
    → (Row → Bool)
    → (Row → Row)
    → Bool
    → Option Row
    → Result RegistryError (Option Table)
update_found table worker_id condition change sets_container none = ok none
update_found table worker_id condition change sets_container (some row) =
    if not (condition row)
    then ok none
    else if triggers_pass row (change row) sets_container
        && not (conflicting worker_id (change row) table)
    then ok (some (insert worker_id (change row) table))
    else err integrity

-- `UPDATE ... WHERE worker_id = ? AND condition`: the next table, or `none` where no row is changed.
unfoldable pub update_row :
    Table → String → (Row → Bool) → (Row → Row) → Bool → Result RegistryError (Option Table)
update_row table worker_id condition change sets_container =
    update_found table worker_id condition change sets_container (lookup worker_id table)
