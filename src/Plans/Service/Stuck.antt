-- ===== src/Plans/Service/Stuck.antt =====
-- A task that a human has approved stops its plan: `_refresh_dependents` wants it back in
-- `awaiting_human`, which the trigger refuses, so the transaction is rolled back.
use pent_ai.Prelude.{
  ℕ, ◌-◌, ◌≡◌, ◌≢◌, refl, sym, ap, subst, ◌∙◌, inl, inr, true, false, not, ◌||◌, ltb, Option, none,
  some, String, List, [], ◌∷◌, ◌==◌, string_eq, nat_eq, eq_of_==, arith, Bool-cases, lookup,
  lookup-insert, contains, ok, guard, or_fail, >>=-eq-ok, or_fail-eq-ok,
}
use pent_ai.Plans.Tasks.{
  running, cancelling, failed, Task, update_task, command_malformed, command_stale, clock_invalid,
  plan_not_found,
}
use pent_ai.Plans.Tasks.Moves.{update_task-Moves}
use pent_ai.Plans.Tasks.Moves.Order.{Moves-is_pending}
use pent_ai.Plans.Service.{
  Graph, Stored, Database, Command, Environment, max_command_age, in_state, settle, check_command,
  apply, transition, update_each, recover_graph, recover_plan, recover_plans, recover, interrupted,
}
use pent_ai.Plans.Service.Requests.{check_command-Asked, may_request_settled}
use pent_ai.Plans.Service.Recovery.{recover_plan-Rewrites}
use pent_ai.Plans.Service.Targets.{update_task-find_task}
use pent_ai.Plans.Service.Approved.{
  IsApproved, stored_of_some, settle-stuck, update_each-IsApproved,
}

apply-stuck :
    (env : Environment) (now : ℕ) (command : Command) (stored : Stored) (db : Database)
    (task : Task)
    → (r : Database × Graph) → IsApproved stored.graph.dependencies stored.graph.tasks task
    → (command.task_id == task.task_id) ≡ false
    → apply env now command stored db ≢ ok r
unfolding apply
apply-stuck env now command stored db task r a n h =
    let edges = stored.graph.dependencies in
    let (u, c, h₁) = >>=-eq-ok (check_command env command stored.graph) _ h in
    let asked = check_command-Asked env command stored.graph u c in
    let (tasks, e, h₂) =
      >>=-eq-ok (update_task false command.task_id command.target_state now stored.graph.tasks) _
        h₁ in
    let (graph, s, _) = >>=-eq-ok (settle now stored.graph tasks) _ h₂ in
    let m =
      update_task-Moves edges false command.task_id command.target_state now stored.graph.tasks
        tasks
        (λ t b.
          absurd (may_request_settled asked.task.state command.target_state asked.admitted t b))
        e in
    settle-stuck now stored.graph graph task tasks
      (update_task-find_task false command.task_id task.task_id command.target_state now
          stored.graph.tasks tasks e n
        ∙ a.found)
      a.is_ready a.asks (Moves-is_pending m task.task_id a.settled) s

-- Once a human has approved a task of a plan, so that it is ready though it asks for approval, no new
-- command for another task of the plan succeeds: the trigger refuses what `_refresh_dependents` writes.
pub transition-ne-ok_of_approved :
    (env : Environment) (clock : Option ℕ) (command : Command) (stored : Stored) (db : Database)
    (task : Task)
    → (r : Database × Graph) → lookup command.command_id db.commands ≡ none
    → lookup command.plan_id db.plans ≡ some stored
    → IsApproved stored.graph.dependencies stored.graph.tasks task
    → (command.task_id == task.task_id) ≡ false
    → transition env clock command db ≢ ok r
unfolding transition
transition-ne-ok_of_approved env clock command stored db task r fresh found a n h =
    let (_, _, h₁) = >>=-eq-ok (guard (env.command_valid command) command_malformed) _ h in
    let (now, _, h₂) = >>=-eq-ok (or_fail clock clock_invalid) _ h₁ in
    let (_, _, h₃) =
      >>=-eq-ok
        (guard
          (not (ltb now command.requested_at || ltb max_command_age (now - command.requested_at)))
          command_stale)
        _ h₂ in
    let applied : apply env now command stored db ≡ ok r = ground arith in
    apply-stuck env now command stored db task r a n applied

recover_plan-stuck :
    (now : ℕ) (id : String) (stored : Stored) (db db' : Database) (task : Task)
    → lookup id db.plans ≡ some stored
    → IsApproved stored.graph.dependencies stored.graph.tasks task
    → recover_plan now id db ≢ ok db'
unfolding recover_plan recover_graph
recover_plan-stuck now id stored db db' task found a h =
    let (stored', f, h₁) = >>=-eq-ok (or_fail (lookup id db.plans) plan_not_found) _ h in
    let same : stored ≡ stored' =
      stored_of_some stored stored'
        (sym found ∙ or_fail-eq-ok (lookup id db.plans) plan_not_found f) in
    let a' : IsApproved stored'.graph.dependencies stored'.graph.tasks task =
      subst (λ s. IsApproved s.graph.dependencies s.graph.tasks task) same a in
    let (graph, e, _) = >>=-eq-ok (recover_graph now stored'.graph) _ h₁ in
    let (tasks, e₁, e₂) =
      >>=-eq-ok (update_each (in_state running stored'.graph.tasks) failed now stored'.graph.tasks)
        _ e in
    let (tasks', e₃, s) =
      >>=-eq-ok (update_each (in_state cancelling tasks) failed now tasks) _ e₂ in
    let b =
      update_each-IsApproved stored'.graph.dependencies (in_state running stored'.graph.tasks) now
        stored'.graph.tasks tasks task a' e₁ in
    let c =
      update_each-IsApproved stored'.graph.dependencies (in_state cancelling tasks) now tasks tasks'
        task b e₃ in
    settle-stuck now stored'.graph graph task tasks' c.found c.is_ready c.asks c.settled s

-- The recovery of another plan leaves a plan alone.
recover_plan-lookup :
    (now : ℕ) (other id : String) (db db' : Database)
    → recover_plan now other db ≡ ok db'
    → (id == other) ≡ false
    → lookup id db'.plans ≡ lookup id db.plans
recover_plan-lookup now other id db db' h n =
    let w = recover_plan-Rewrites now other db db' h in
    let l = lookup-insert id other (record w.stored { graph = w.graph }) db.plans in
    ap (lookup id) w.written ∙ (l ∙ rw n refl)

recover_plans-stuck :
    (now : ℕ) (ids : List String) (id : String) (stored : Stored) (db db' : Database) (task : Task)
    → contains ids id ≡ true
    → lookup id db.plans ≡ some stored
    → IsApproved stored.graph.dependencies stored.graph.tasks task
    → recover_plans now ids db ≢ ok db'
unfolding recover_plans
recover_plans-stuck now [] id stored db db' task c found a h = absurd (ground arith)
recover_plans-stuck now (other ∷ ids) id stored db db' task c found a h =
    let (middle, e, h₁) = >>=-eq-ok (recover_plan now other db) _ h in
    elim (Bool-cases (id == other)) [
      | inl i ↦
          let same = eq_of_== id other i in
          recover_plan-stuck now other stored db middle task
            (subst (λ k. lookup k db.plans ≡ some stored) same found) a e
      | inr i ↦
          recover_plans-stuck now ids id stored middle db' task (ground arith)
            (recover_plan-lookup now other id db middle e i ∙ found) a h₁
    ]

-- Where a plan that is to be recovered has a task that a human has approved, which is ready, the recovery
-- at startup does not succeed, for that plan or for any other.
pub recover-ne-ok_of_approved :
    (clock : Option ℕ) (id : String) (stored : Stored) (db : Database) (task : Task)
    → (r : Database × List String) → contains (interrupted db.plans) id ≡ true
    → lookup id db.plans ≡ some stored
    → IsApproved stored.graph.dependencies stored.graph.tasks task
    → recover clock db ≢ ok r
unfolding recover
recover-ne-ok_of_approved clock id stored db task r c found a h =
    let (now, _, h₁) = >>=-eq-ok (or_fail clock clock_invalid) _ h in
    let (db', e, _) = >>=-eq-ok (recover_plans now (interrupted db.plans) db) _ h₁ in
    recover_plans-stuck now (interrupted db.plans) id stored db db' task c found a e
