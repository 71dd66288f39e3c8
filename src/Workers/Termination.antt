-- ===== src/Workers/Termination.antt =====
-- worker_runtime_recovery.py: `WorkerRuntimeRecovery`, which ends every worker that the table still
-- records as unfinished. The container runtime is a parameter: what its controller answers, where
-- `none` and `false` are exceptions.
pub mod Candidates
pub mod Completeness
pub mod Endings
pub mod Stuck
use Prim.Native.Nat.{Ordering}
use Prim.Native.String.{compare}
use pent_ai.Prelude.{
  ℕ, suc, ◌+◌, Bool, true, false, not, ◌&&◌, Option, none, some, String, List, [], ◌∷◌, Text, ◌==◌,
  string_eq, nat_eq, if◌then◌else◌, leb, length, filter, Dict, lookup, Result, ok, err, ◌>>=◌, ◌>>◌,
  guard, or_fail,
}
use pent_ai.Workers.Registry.Schema.{
  RegistryError, Status, termination_requested, same_status, is_active, is_none, Row, Table,
}
use pent_ai.Workers.Registry.{request_termination, finalize_termination, Answer}

pub data RecoveryError : Type 0 where
  recovery_invalid recovery_incomplete : RecoveryError
  -- an exception of the controller
  controller_failed : RecoveryError
  registry : RegistryError → RecoveryError

pub record Controller : Type 0 where
  pub discover_owned : String → Option (Option String)
  pub verify_ownership : String → String → Bool
  pub terminate : String → Bool

abbrev pub Runtimes : Type 0
Runtimes = String → Option Controller

-- A candidate: a worker and the row that the query read.
abbrev pub Candidate : Type 0
Candidate = String × Row

-- The times that a recovery of a worker reads.
abbrev pub Readings : Type 0
Readings = String → Option ℕ × Option ℕ

unfoldable pub insert_candidate : Candidate → List Candidate → List Candidate
insert_candidate (id, row) [] = (id, row) ∷ []
insert_candidate (id, row) ((j, other) ∷ rest) = elim (compare id j) [
  | Ordering.gt ↦ (j, other) ∷ insert_candidate (id, row) rest
  | _ ↦ (id, row) ∷ ((j, other) ∷ rest)
]

-- `recovery_candidates`: the active rows, in the order of their workers.
unfoldable pub recovery_candidates : Table → List Candidate
unfolding insert_candidate
recovery_candidates [] = []
recovery_candidates ((id, row) ∷ table) =
    let rest = recovery_candidates table in
    if is_active row.status then insert_candidate (id, row) rest else rest

abbrev pub RecoveryAnswer : Type 0
RecoveryAnswer = Table × Result RecoveryError (Unit {0})

-- The container of a candidate: the recorded one, or the one that the runtime finds.
unfoldable pub find_container : Controller → Candidate → Result RecoveryError (Option String)
find_container controller (id, row) =
    if is_none row.container_id
    then or_fail (controller.discover_owned id) controller_failed
    else ok row.container_id

-- The ending of the container, where there is one.
unfoldable pub end_container : Controller → String → Option String → Bool
end_container controller id none = true
end_container controller id (some container_id) =
    controller.verify_ownership id container_id && controller.terminate container_id

-- The last call: `finalize_termination`, and the exception that follows a failed ending.
abbrev pub closed : Bool → Answer → RecoveryAnswer
closed ended (table, err e) = (table, err (registry e))
closed true (table, ok row) = (table, ok tt)
closed false (table, ok row) = (table, err controller_failed)

unfoldable pub finish : Controller → Table → String → Option String → ℕ → Option ℕ → RecoveryAnswer
finish controller table id container version clock =
    let ended = end_container controller id container in
    closed ended (finalize_termination table id version ended clock)

abbrev pub requested : Controller → String → Option String → Option ℕ → Answer → RecoveryAnswer
requested controller id container clock (table, err e) = (table, err (registry e))
requested controller id container clock (table, ok row) =
    finish controller table id container row.version clock

-- `_recover`, from the search for the container on.
abbrev pub recover_found :
    Controller
    → Table
    → Candidate
    → Text
    → Option ℕ
    → Option ℕ
    → Result RecoveryError (Option String)
    → RecoveryAnswer
recover_found controller table candidate reason clock clock' (err e) = (table, err e)
recover_found controller table (id, row) reason clock clock' (ok container) =
    if same_status row.status termination_requested
    then finish controller table id container row.version clock'
    else requested controller id container clock' (
        request_termination table id row.version reason
          (if is_none row.container_id then container else none) clock)

abbrev pub recover_controlled :
    Table → Candidate → Text → Option ℕ → Option ℕ → Option Controller → RecoveryAnswer
recover_controlled table candidate reason clock clock' none = (table, err controller_failed)
recover_controlled table candidate reason clock clock' (some controller) =
    recover_found controller table candidate reason clock clock'
      (find_container controller candidate)

-- `_recover`
unfoldable pub recover_candidate :
    Runtimes → Table → Candidate → Text → Option ℕ × Option ℕ → RecoveryAnswer
recover_candidate runtimes table (id, row) reason (clock, clock') =
    if not (is_active row.status && leb 1 row.version)
    then (table, err recovery_invalid)
    else recover_controlled table (id, row) reason clock clock' (runtimes row.oci_runtime)

abbrev pub failures_of : Result RecoveryError (Unit {0}) → ℕ
failures_of (ok u) = 0
failures_of (err e) = 1

-- The loop of `terminate_all`: the table and the number of failures.
unfoldable pub terminate_each : Runtimes → Readings → Text → Table → List Candidate → Table × ℕ
terminate_each runtimes readings reason table [] = (table, 0)
terminate_each runtimes readings reason table ((id, row) ∷ rest) =
    let step = recover_candidate runtimes table (id, row) reason (readings id) in
    let last = terminate_each runtimes readings reason step.0 rest in
    (last.0, failures_of step.1 + last.1)

-- `terminate_all`
unfoldable pub terminate_all : Runtimes → Readings → Table → Text → Table × Result RecoveryError ℕ
terminate_all runtimes readings table reason =
    let candidates = recovery_candidates table in
    let last = terminate_each runtimes readings reason table candidates in
    if last.1 == 0 then (last.0, ok (length candidates)) else (last.0, err recovery_incomplete)

abbrev as_incomplete : RecoveryAnswer → RecoveryAnswer
as_incomplete (table, ok u) = (table, ok u)
as_incomplete (table, err e) = (table, err recovery_incomplete)

abbrev terminate_only : Runtimes → Readings → Table → Text → List Candidate → RecoveryAnswer
terminate_only runtimes readings table reason ((id, row) ∷ []) =
    as_incomplete (recover_candidate runtimes table (id, row) reason (readings id))
terminate_only runtimes readings table reason _ = (table, err recovery_invalid)

-- `terminate_worker`
unfoldable pub terminate_worker : Runtimes → Readings → Table → String → Text → RecoveryAnswer
terminate_worker runtimes readings table worker_id reason =
    terminate_only runtimes readings table reason
      (filter (λ (id, row). id == worker_id) (recovery_candidates table))
