-- ===== src/Plans/Tasks.antt =====
-- The tasks of a plan: their states, the trigger that guards them, `_refresh_dependents` and
-- `_plan_state` of orchestration.py.
pub mod Moves
use pent_ai.Prelude.{
  ℕ, suc, ◌+◌, Bool, true, false, not, ◌&&◌, ◌||◌, String, List, [], ◌∷◌, ◌==◌, string_eq,
  if◌then◌else◌, any, all, Result, ok, err, ◌>>=◌, ◌>>◌, guard,
}

pub data TaskState : Type 0 where
  pending blocked awaiting_human ready running cancelling cancelled succeeded failed dead_letter :
      TaskState

pub data PlanState : Type 0 where
  active completed plan_cancelled plan_failed : PlanState

pub data PlanError : Type 0 where
  plan_malformed plan_initial_state_invalid task_initial_state_invalid plan_time_invalid : PlanError
  task_id_ambiguous dependency_ambiguous dependency_missing dependency_cycle : PlanError
  plan_identity_conflict command_malformed command_stale command_identity_conflict : PlanError
  plan_not_found assessment_mismatch plan_terminal plan_fenced task_not_found : PlanError
  task_fenced transition_denied stored_state_invalid : PlanError
  clock_invalid : PlanError
  -- the fuel is spent, which does not happen
  exhausted : PlanError
  -- a `sqlite3.IntegrityError` that is not caught
  integrity : PlanError

pub record Task : Type 0 where
  pub task_id : String
  pub task_type : String
  pub objective : String
  pub input_refs : List String
  pub requires_human_approval : Bool
  pub state : TaskState
  pub revision : ℕ
  pub created_at : ℕ
  pub updated_at : ℕ

pub record Edge : Type 0 where
  pub predecessor_task_id : String
  pub successor_task_id : String
  pub dependency_type : String

abbrev pub is_succeeded : TaskState → Bool
is_succeeded succeeded = true
is_succeeded _ = false

-- `_TERMINAL`
abbrev pub is_terminal : TaskState → Bool
is_terminal cancelled = true
is_terminal succeeded = true
is_terminal failed = true
is_terminal _ = false

-- `_TRANSITIONS`
abbrev pub may_request : TaskState → TaskState → Bool
may_request ready cancelled = true
may_request awaiting_human cancelled = true
may_request running cancelling = true
may_request running succeeded = true
may_request cancelling cancelled = true
may_request cancelling failed = true
may_request blocked cancelled = true
may_request _ _ = false

-- The trigger `orchestration_tasks_version_fenced`; `witnessed` says that the tables of the other
-- services hold the row that the change calls for.
abbrev pub may_update : Bool → TaskState → TaskState → Bool
may_update witnessed blocked ready = true
may_update witnessed blocked awaiting_human = true
may_update witnessed blocked cancelled = true
may_update witnessed ready cancelled = true
may_update witnessed ready running = witnessed
may_update witnessed awaiting_human cancelled = true
may_update witnessed awaiting_human ready = witnessed
may_update witnessed running cancelling = true
may_update witnessed running succeeded = true
may_update witnessed running failed = witnessed
may_update witnessed failed ready = witnessed
may_update witnessed failed dead_letter = witnessed
may_update witnessed cancelling cancelled = true
may_update witnessed cancelling failed = true
may_update witnessed _ _ = false

abbrev pub same_state : TaskState → TaskState → Bool
same_state pending pending = true
same_state blocked blocked = true
same_state awaiting_human awaiting_human = true
same_state ready ready = true
same_state running running = true
same_state cancelling cancelling = true
same_state cancelled cancelled = true
same_state succeeded succeeded = true
same_state failed failed = true
same_state dead_letter dead_letter = true
same_state _ _ = false

-- `SET state = ?, revision = revision + 1, updated_at = ?`
abbrev pub moved : Task → TaskState → ℕ → Task
moved task target timestamp = record task {
  state = target;
  revision = suc task.revision;
  updated_at = timestamp;
}

-- `UPDATE orchestration_tasks … WHERE task_id = ?`
unfoldable pub update_task :
    Bool → String → TaskState → ℕ → List Task → Result PlanError (List Task)
update_task witnessed id target timestamp [] = ok []
update_task witnessed id target timestamp (task ∷ tasks) =
    let rest = update_task witnessed id target timestamp tasks in
    if task.task_id == id
    then guard (may_update witnessed task.state target) integrity
      >> ok (moved task target timestamp ∷ tasks)
    else rest >>= λ tasks'. ok (task ∷ tasks')

-- A task of that name has not succeeded.
unfoldable pub unsettled : String → List Task → Bool
unsettled id = any (λ task. task.task_id == id && not (is_succeeded task.state))

-- `any(row["state"] != "succeeded" for row in predecessors)`
unfoldable pub is_pending : List Edge → List Task → String → Bool
is_pending edges tasks id =
    any (λ edge. edge.successor_task_id == id && unsettled edge.predecessor_task_id tasks) edges

unfoldable pub desired : List Edge → List Task → Task → TaskState
desired edges tasks task =
    if is_pending edges tasks task.task_id
    then blocked
    else if task.requires_human_approval
    then awaiting_human
    else ready

abbrev pub is_waiting : TaskState → Bool
is_waiting blocked = true
is_waiting ready = true
is_waiting awaiting_human = true
is_waiting _ = false

-- The body of the loop of `_refresh_dependents`, for a row of the query
unfoldable pub refresh_task : List Edge → ℕ → Task → List Task → Result PlanError (List Task)
refresh_task edges timestamp task tasks =
    if not (is_waiting task.state)
    then ok tasks
    else if same_state (desired edges tasks task) task.state
    then ok tasks
    else update_task false task.task_id (desired edges tasks task) timestamp tasks

-- `_refresh_dependents`: the rows of the query, and the table as it changes.
unfoldable pub refresh_dependents :
    List Edge → ℕ → List Task → List Task → Result PlanError (List Task)
refresh_dependents edges timestamp [] tasks = ok tasks
refresh_dependents edges timestamp (row ∷ rows) tasks = do
  tasks' ← refresh_task edges timestamp row tasks
  refresh_dependents edges timestamp rows tasks'

abbrev pub is_failed : TaskState → Bool
is_failed failed = true
is_failed _ = false

-- `_plan_state`
unfoldable pub plan_state : List Task → PlanState
plan_state tasks =
    if all (λ task. is_succeeded task.state) tasks
    then completed
    else if all (λ task. is_terminal task.state) tasks
    then (if any (λ task. is_failed task.state) tasks then plan_failed else plan_cancelled)
    else active
