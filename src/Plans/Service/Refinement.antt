-- ===== src/Plans/Service/Refinement.antt =====
-- The service refines the moves of the tasks: whatever calls are made, in whatever order and between
-- whatever moves of the other services, the tasks of a plan work in the order of their dependencies.
use pent_ai.Prelude.{
  ℕ, suc, ◌≡◌, refl, sym, ap, subst, ◌∙◌, false, not, ◌||◌, ltb, ◌-◌, Option, none, some, String,
  List, string_eq, nat_eq, arith, lookup, insert, ok, guard, or_fail, >>=-eq-ok, ok-injective,
  or_fail-eq-ok,
}
use pent_ai.Plans.Tasks.{
  moved, stored_state_invalid, command_malformed, command_stale, clock_invalid, Task, update_task,
  refresh_dependents, plan_not_found, plan_state,
}
use pent_ai.Plans.Tasks.Moves.{Moves, Moves-trans, update_task-Moves, refresh_dependents-Moves}
use pent_ai.Plans.Service.{
  Graph, Stored, Database, Command, Environment, max_command_age, find_task, load, settle,
  check_command, apply, transition,
}
use pent_ai.Plans.Service.Targets.{settle-moved}
use pent_ai.Plans.Service.Requests.{
  Asked, check_command-Asked, may_request_settled, may_request_settles,
}

-- What a call makes of a plan
pub record Follows (graph graph' : Graph) : Type 0 where
  pub moves : Moves graph.dependencies graph.tasks graph'.tasks
  pub dependencies : graph'.dependencies ≡ graph.dependencies
  pub revision : graph'.revision ≡ suc graph.revision
  pub state : graph'.state ≡ plan_state graph'.tasks

pub settle-Follows :
    (timestamp : ℕ) (graph graph' : Graph) (tasks : List Task)
    → Moves graph.dependencies graph.tasks tasks
    → settle timestamp graph tasks ≡ ok graph'
    → Follows graph graph'
unfolding settle
settle-Follows timestamp graph graph' tasks m h =
    let (refreshed, e, h₁) =
      >>=-eq-ok (refresh_dependents graph.dependencies timestamp tasks tasks) _ h in
    subst (Follows graph) (ok-injective h₁) (record {
      moves =
          Moves-trans m
            (refresh_dependents-Moves graph.dependencies timestamp tasks tasks refreshed e);
      dependencies = refl;
      revision = refl;
      state = refl;
    })

-- What a command makes of the task that it names, from the revisions that it expects
pub record Granted (command : Command) (now : ℕ) (graph result : Graph) : Type 0 where
  pub asked : Asked command graph
  pub moved_to :
      find_task command.task_id result.tasks ≡ some (moved asked.task command.target_state now)

-- What an operation makes of the plans: one of them is followed.
pub record Rewrites (id : String) (db db' : Database) : Type 0 where
  pub stored : Stored
  pub graph : Graph
  pub found : lookup id db.plans ≡ some stored
  pub written : db'.plans ≡ insert id (record stored { graph = graph }) db.plans
  pub follows : Follows stored.graph graph

load-same : (env : Environment) (graph loaded : Graph) → load env graph ≡ ok loaded → loaded ≡ graph
unfolding load
load-same env graph loaded h =
    let (_, _, h₁) = >>=-eq-ok (guard (env.graph_valid graph) stored_state_invalid) _ h in
    sym (ok-injective h₁)

apply-Rewrites :
    (env : Environment) (now : ℕ) (command : Command) (stored : Stored) (db db' : Database)
    (result : Graph)
    → lookup command.plan_id db.plans ≡ some stored
    → apply env now command stored db ≡ ok (db', result)
    → (w : Rewrites command.plan_id db db') × (result ≡ w.graph)
      × Granted command now w.stored.graph w.graph
unfolding apply
apply-Rewrites env now command stored db db' result found h =
    let (u, c, h₁) = >>=-eq-ok (check_command env command stored.graph) _ h in
    let asked = check_command-Asked env command stored.graph u c in
    let (tasks, e, h₂) =
      >>=-eq-ok (update_task false command.task_id command.target_state now stored.graph.tasks) _
        h₁ in
    let (graph, s, h₃) = >>=-eq-ok (settle now stored.graph tasks) _ h₂ in
    let (loaded, l, h₄) = >>=-eq-ok (load env graph) _ h₃ in
    let m =
      update_task-Moves stored.graph.dependencies false command.task_id command.target_state now
        stored.graph.tasks tasks
        (λ n b.
          absurd (may_request_settled asked.task.state command.target_state asked.admitted n b))
        e in
    let pair = ok-injective h₄ in
    (
      record {
        stored = stored;
        graph = graph;
        found = found;
        written = ap (λ p. p.0.plans) (sym pair);
        follows = settle-Follows now stored.graph graph tasks m s;
      },
      ap (λ p. p.1) (sym pair) ∙ load-same env graph loaded l,
      record {
        asked = asked;
        moved_to =
            settle-moved now stored.graph graph command.task_id command.target_state tasks
              asked.task asked.named
              (may_request_settles asked.task.state command.target_state asked.admitted) e s;
      },
    )

-- A command that has not been seen before, and is not refused, changes the one plan that it names, by
-- moves of its tasks that keep to the dependencies, and raises its revision by one; the state of the
-- plan is that of its tasks, and the result is the plan. The plan and the task that it names had the
-- revisions that it expects, the task was in a state from which it may ask for its target, and in the
-- result the task is in the target state, with a revision raised by one, at the time of the call.
pub transition-Rewrites :
    (env : Environment) (clock : Option ℕ) (command : Command) (db db' : Database) (result : Graph)
    → lookup command.command_id db.commands ≡ none
    → transition env clock command db ≡ ok (db', result)
    → (w : Rewrites command.plan_id db db') × (result ≡ w.graph)
      × ((now : ℕ) × (clock ≡ some now) × Granted command now w.stored.graph w.graph)
unfolding transition
transition-Rewrites env clock command db db' result fresh h =
    let (_, _, h₁) = >>=-eq-ok (guard (env.command_valid command) command_malformed) _ h in
    let (now, t, h₂) = >>=-eq-ok (or_fail clock clock_invalid) _ h₁ in
    let (_, _, h₃) =
      >>=-eq-ok
        (guard
          (not (ltb now command.requested_at || ltb max_command_age (now - command.requested_at)))
          command_stale)
        _ h₂ in
    let (stored, f, h₄) =
      >>=-eq-ok (or_fail (lookup command.plan_id db.plans) plan_not_found)
        (λ stored. apply env now command stored db) (ground arith) in
    let (w, same, granted) =
      apply-Rewrites env now command stored db db' result
        (or_fail-eq-ok (lookup command.plan_id db.plans) plan_not_found f) h₄ in
    (w, same, (now, or_fail-eq-ok clock clock_invalid t, granted))
