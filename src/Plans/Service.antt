-- ===== src/Plans/Service.antt =====
-- `create`, `transition` and `recover` of orchestration.py. The schemas, the digests and the rows of other
-- services that a call asks for are parameters.
pub mod Targets
pub mod Requests
pub mod Refinement
pub mod Recovery
pub mod Creation
pub mod Reachable
pub mod Approved
pub mod Stuck
use pent_ai.Prelude.{
  ℕ, suc, ◌+◌, ◌-◌, Bool, true, false, not, ◌&&◌, ◌||◌, Option, none, some, String, List, [], ◌∷◌,
  ◌++◌, map, ◌==◌, string_eq, nat_eq, if◌then◌else◌, leb, ltb, any, all, filter, contains,
  all_distinct, Dict, lookup, insert, Result, ok, err, ◌>>=◌, ◌>>◌, guard, or_fail, string_le,
  sort_by,
}
use pent_ai.Policy.Evaluator.{sorted_set}
use pent_ai.Plans.Tasks.{
  TaskState, pending, running, cancelling, succeeded, failed, PlanState, active, PlanError,
  plan_malformed, plan_initial_state_invalid, task_initial_state_invalid, plan_time_invalid,
  task_id_ambiguous, plan_identity_conflict, command_malformed, command_stale,
  command_identity_conflict, plan_not_found, assessment_mismatch, plan_terminal, plan_fenced,
  task_not_found, task_fenced, transition_denied, stored_state_invalid, clock_invalid, Task, Edge,
  may_request, same_state, update_task, refresh_dependents, plan_state,
}
use pent_ai.Plans.Graph.{validate_edges, reject_cycles, initial_tasks}

-- A plan document
pub record Graph : Type 0 where
  pub plan_id : String
  pub assessment_id : String
  pub idempotency_key : String
  pub revision : ℕ
  pub state : PlanState
  pub tasks : List Task
  pub dependencies : List Edge
  pub created_at : ℕ
  pub updated_at : ℕ

pub record Stored : Type 0 where
  pub graph : Graph
  pub creation_digest : String

pub record RecoveryFailure : Type 0 where
  pub plan_id : String
  pub task_id : String
  pub expected_task_revision : ℕ
  pub resulting_task_revision : ℕ

pub record Database : Type 0 where
  pub plans : Dict String Stored
  pub commands : Dict String (String × Graph)
  pub recovery_failures : List RecoveryFailure

-- The request of `transition`
pub record Command : Type 0 where
  pub command_id : String
  pub plan_id : String
  pub assessment_id : String
  pub task_id : String
  pub expected_plan_revision : ℕ
  pub expected_task_revision : ℕ
  pub target_state : TaskState
  pub requested_at : ℕ

pub record Environment : Type 0 where
  -- `not contract_issues(…)`
  pub graph_valid : Graph → Bool
  pub command_valid : Command → Bool
  -- `_digest`
  pub graph_digest : Graph → String
  pub command_digest : Command → String
  -- the task has a third attempt in orchestration_retry_attempts_v2
  pub has_third_attempt : String → Bool

abbrev pub is_active : PlanState → Bool
is_active active = true
is_active _ = false

-- `MAX_COMMAND_AGE`
abbrev pub max_command_age : ℕ
max_command_age = 300_000_000

abbrev pub find_task : String → List Task → Option Task
find_task id [] = none
find_task id (task ∷ tasks) = if task.task_id == id then some task else find_task id tasks

-- The plan of an idempotency key
abbrev pub find_key : String → String → Dict String Stored → Option Stored
find_key assessment_id key [] = none
find_key assessment_id key ((id, stored) ∷ plans) =
    if stored.graph.assessment_id == assessment_id && stored.graph.idempotency_key == key
    then some stored
    else find_key assessment_id key plans

abbrev pub task_ids : Graph → List String
task_ids graph = map (λ (task : Task). task.task_id) graph.tasks

-- The primary keys of the plan or of its tasks are taken.
unfoldable pub taken : Graph → Dict String Stored → Bool
taken graph = any (λ (id, stored).
    id == graph.plan_id
    || any (λ task_id. contains (task_ids stored.graph) task_id) (task_ids graph))

-- The order in which the queries read the rows: by the ids of the tasks, and of both ends of an edge.
abbrev pub task_le : Task → Task → Bool
task_le a b = string_le a.task_id b.task_id

abbrev pub edge_le : Edge → Edge → Bool
edge_le a b =
    if a.predecessor_task_id == b.predecessor_task_id
    then string_le a.successor_task_id b.successor_task_id
    else string_le a.predecessor_task_id b.predecessor_task_id

unfoldable pub in_row_order : Graph → Graph
in_row_order graph = record graph {
  tasks = sort_by task_le graph.tasks;
  dependencies = sort_by edge_le graph.dependencies;
}

-- `_load`
unfoldable pub load : Environment → Graph → Result PlanError Graph
load env graph = guard (env.graph_valid graph) stored_state_invalid >> ok graph

-- The tests of `create`, up to the transaction: the plan with the first states of its tasks.
unfoldable pub prepare : Environment → Graph → Result PlanError Graph
prepare env candidate = do
  guard (env.graph_valid candidate) plan_malformed
  guard (candidate.revision == 1 && is_active candidate.state) plan_initial_state_invalid
  guard
      (not (
        any (λ task. not (same_state task.state pending) || not (task.revision == 1))
          candidate.tasks))
      task_initial_state_invalid
  guard (candidate.created_at == candidate.updated_at) plan_time_invalid
  guard (all_distinct (task_ids candidate)) task_id_ambiguous
  edges ← validate_edges candidate.dependencies (task_ids candidate)
  reject_cycles (task_ids candidate) edges
  ok (record candidate { tasks = initial_tasks edges candidate.tasks; dependencies = edges })

-- The insertions of `create`; the rows are kept in the order in which they are read.
unfoldable pub insert_plan :
    Environment → String → Graph → Database → Result PlanError (Database × Graph)
insert_plan env digest graph db = do
  guard (not (taken graph db.plans)) plan_identity_conflict
  loaded ← load env (in_row_order graph)
  ok (
    record db {
      plans =
          insert graph.plan_id (record { graph = in_row_order graph; creation_digest = digest })
            db.plans;
    },
    loaded,
  )

-- The case that the idempotency key is bound already
unfoldable pub create_again :
    Environment → String → Stored → Database → Result PlanError (Database × Graph)
create_again env digest stored db = do
  guard (stored.creation_digest == digest) plan_identity_conflict
  loaded ← load env stored.graph
  ok (db, loaded)

unfoldable pub create : Environment → Graph → Database → Result PlanError (Database × Graph)
create env candidate db = prepare env candidate >>= λ graph.
    elim (find_key candidate.assessment_id candidate.idempotency_key db.plans) [
      | some stored ↦ create_again env (env.graph_digest candidate) stored db
      | none ↦ insert_plan env (env.graph_digest candidate) graph db
    ]

-- The plan after its tasks have changed, with the dependents refreshed
unfoldable pub settle : ℕ → Graph → List Task → Result PlanError Graph
settle timestamp graph tasks = do
  refreshed ← refresh_dependents graph.dependencies timestamp tasks tasks
  ok (record graph {
    tasks = refreshed;
    state = plan_state refreshed;
    revision = suc graph.revision;
    updated_at = timestamp;
  })

-- The tests of `transition` on the plan and the task
unfoldable pub check_command : Environment → Command → Graph → Result PlanError (Unit {0})
check_command env command graph = do
  guard (graph.assessment_id == command.assessment_id) assessment_mismatch
  guard (is_active graph.state) plan_terminal
  guard (graph.revision == command.expected_plan_revision) plan_fenced
  task ← or_fail (find_task command.task_id graph.tasks) task_not_found
  guard (task.revision == command.expected_task_revision) task_fenced
  guard (may_request task.state command.target_state) transition_denied
  guard (not (same_state command.target_state succeeded && env.has_third_attempt command.task_id))
      transition_denied

-- The updates of `transition`
unfoldable pub apply :
    Environment → ℕ → Command → Stored → Database → Result PlanError (Database × Graph)
apply env now command stored db = do
  check_command env command stored.graph
  tasks ← update_task false command.task_id command.target_state now stored.graph.tasks
  graph ← settle now stored.graph tasks
  loaded ← load env graph
  ok (
    record db {
      plans = insert command.plan_id (record stored { graph = graph }) db.plans;
      commands = insert command.command_id (env.command_digest command, loaded) db.commands;
    },
    loaded,
  )

unfoldable pub transition :
    Environment → Option ℕ → Command → Database → Result PlanError (Database × Graph)
transition env clock command db =
    guard (env.command_valid command) command_malformed
    >> (or_fail clock clock_invalid >>= λ now.
        guard
          (not (ltb now command.requested_at || ltb max_command_age (now - command.requested_at)))
          command_stale
        >> elim (lookup command.command_id db.commands) [
          | some (digest, result) ↦
              guard (digest == env.command_digest command) command_identity_conflict
              >> ok (db, result)
          | none ↦ or_fail (lookup command.plan_id db.plans) plan_not_found >>= λ stored.
              apply env now command stored db
        ])

-- The updates of a list of tasks, one by one
unfoldable pub update_each : List String → TaskState → ℕ → List Task → Result PlanError (List Task)
update_each [] target timestamp tasks = ok tasks
update_each (id ∷ ids) target timestamp tasks = do
  tasks' ← update_task true id target timestamp tasks
  update_each ids target timestamp tasks'

abbrev pub in_state : TaskState → List Task → List String
in_state state tasks =
    map (λ (task : Task). task.task_id) (filter (λ task. same_state task.state state) tasks)

-- The body of the loop of `recover`: interrupted tasks fail, then those that are being cancelled.
unfoldable pub recover_graph : ℕ → Graph → Result PlanError Graph
recover_graph now graph = do
  tasks ← update_each (in_state running graph.tasks) failed now graph.tasks
  tasks' ← update_each (in_state cancelling tasks) failed now tasks
  settle now graph tasks'

unfoldable pub failures_of : Graph → List RecoveryFailure
failures_of graph =
    map
      (λ (task : Task). record {
        plan_id = graph.plan_id;
        task_id = task.task_id;
        expected_task_revision = task.revision;
        resulting_task_revision = task.revision + 1;
      })
      (filter (λ task. same_state task.state running) graph.tasks)

unfoldable pub recover_plan : ℕ → String → Database → Result PlanError Database
recover_plan now id db = or_fail (lookup id db.plans) plan_not_found >>= λ stored.
    recover_graph now stored.graph >>= λ graph. ok (record db {
      plans = insert id (record stored { graph = graph }) db.plans;
      recovery_failures = db.recovery_failures ++ failures_of stored.graph;
    })

unfoldable pub recover_plans : ℕ → List String → Database → Result PlanError Database
recover_plans now [] db = ok db
recover_plans now (id ∷ ids) db = do db' ← recover_plan now id db; recover_plans now ids db'

abbrev pub is_interrupted : Graph → Bool
is_interrupted graph =
    is_active graph.state
    && any (λ task. same_state task.state running || same_state task.state cancelling) graph.tasks

-- The query of the plans to recover, in the order of their ids
unfoldable pub interrupted : Dict String Stored → List String
interrupted plans =
    sorted_set
      (map (λ (id, stored). id) (filter (λ (id, stored). is_interrupted stored.graph) plans))

unfoldable pub recover : Option ℕ → Database → Result PlanError (Database × List String)
recover clock db = do
  now ← or_fail clock clock_invalid
  db' ← recover_plans now (interrupted db.plans) db
  ok (db', interrupted db.plans)
