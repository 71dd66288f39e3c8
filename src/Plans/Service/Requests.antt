-- ===== src/Plans/Service/Requests.antt =====
-- What the tests of `transition` on the plan and the task have found out once they are passed.
use pent_ai.Prelude.{
  eq_of_==, ◌≡◌, ◌≢◌, refl, true, false, some, ◌==◌, string_eq, nat_eq, arith, ok, guard,
  guard-eq-ok, or_fail, >>=-eq-ok, or_fail-eq-ok,
}
use pent_ai.Plans.Tasks.{
  is_waiting, TaskState, pending, blocked, awaiting_human, ready, running, cancelling, cancelled,
  succeeded, failed, dead_letter, may_request, may_update, assessment_mismatch, plan_terminal,
  plan_fenced, task_not_found, task_fenced, transition_denied, Task,
}
use pent_ai.Plans.Service.{Graph, Command, Environment, find_task, is_active, check_command}

-- No command asks for a task to be ready or to await a human.
may_request_ready : (state : TaskState) → may_request state ready ≡ false
may_request_ready pending = refl
may_request_ready blocked = refl
may_request_ready awaiting_human = refl
may_request_ready ready = refl
may_request_ready running = refl
may_request_ready cancelling = refl
may_request_ready cancelled = refl
may_request_ready succeeded = refl
may_request_ready failed = refl
may_request_ready dead_letter = refl

may_request_awaiting : (state : TaskState) → may_request state awaiting_human ≡ false
may_request_awaiting pending = refl
may_request_awaiting blocked = refl
may_request_awaiting awaiting_human = refl
may_request_awaiting ready = refl
may_request_awaiting running = refl
may_request_awaiting cancelling = refl
may_request_awaiting cancelled = refl
may_request_awaiting succeeded = refl
may_request_awaiting failed = refl
may_request_awaiting dead_letter = refl

pub may_request_settled :
    (state target : TaskState)
    → may_request state target ≡ true
    → target ≢ cancelled
    → may_update false blocked target ≡ true
    → ⊥
may_request_settled state pending r c u = ground arith
may_request_settled state blocked r c u = ground arith
may_request_settled state awaiting_human r c u = ground (arith, may_request_awaiting state)
may_request_settled state ready r c u = ground (arith, may_request_ready state)
may_request_settled state running r c u = ground arith
may_request_settled state cancelling r c u = ground arith
may_request_settled state cancelled r c u = c refl
may_request_settled state succeeded r c u = ground arith
may_request_settled state failed r c u = ground arith
may_request_settled state dead_letter r c u = ground arith

-- The task that a command names, as the tests of `transition` find it
pub record Asked (command : Command) (graph : Graph) : Type 0 where
  pub task : Task
  pub named : find_task command.task_id graph.tasks ≡ some task
  pub of_assessment : graph.assessment_id ≡ command.assessment_id
  pub plan_unchanged : graph.revision ≡ command.expected_plan_revision
  pub task_unchanged : task.revision ≡ command.expected_task_revision
  pub admitted : may_request task.state command.target_state ≡ true

pub check_command-Asked :
    (env : Environment) (command : Command) (graph : Graph) (u : Unit {0})
    → check_command env command graph ≡ ok u
    → Asked command graph
unfolding check_command
check_command-Asked env command graph u h =
    let same_assessment = graph.assessment_id == command.assessment_id in
    let same_plan = graph.revision == command.expected_plan_revision in
    let (_, e, h₁) = >>=-eq-ok (guard same_assessment assessment_mismatch) _ h in
    let (_, _, h₂) = >>=-eq-ok (guard (is_active graph.state) plan_terminal) _ h₁ in
    let (_, p, h₃) = >>=-eq-ok (guard same_plan plan_fenced) _ h₂ in
    let (task, f, h₄) =
      >>=-eq-ok (or_fail (find_task command.task_id graph.tasks) task_not_found) _ h₃ in
    let same_task = task.revision == command.expected_task_revision in
    let (_, t, h₅) = >>=-eq-ok (guard same_task task_fenced) _ h₄ in
    let (_, g, _) =
      >>=-eq-ok (guard (may_request task.state command.target_state) transition_denied) _ h₅ in
    record {
      task = task;
      named = or_fail-eq-ok (find_task command.task_id graph.tasks) task_not_found f;
      of_assessment =
          eq_of_== graph.assessment_id command.assessment_id
            (guard-eq-ok same_assessment assessment_mismatch e);
      plan_unchanged =
          eq_of_== graph.revision command.expected_plan_revision
            (guard-eq-ok same_plan plan_fenced p);
      task_unchanged =
          eq_of_== task.revision command.expected_task_revision
            (guard-eq-ok same_task task_fenced t);
      admitted = guard-eq-ok (may_request task.state command.target_state) transition_denied g;
    }

-- No command asks for a state in which a task waits.
pub may_request_settles :
    (state target : TaskState) → may_request state target ≡ true → is_waiting target ≡ false
may_request_settles pending target r = ground arith
may_request_settles blocked target r = ground arith
may_request_settles awaiting_human target r = ground arith
may_request_settles ready target r = ground arith
may_request_settles running target r = ground arith
may_request_settles cancelling target r = ground arith
may_request_settles cancelled target r = ground arith
may_request_settles succeeded target r = ground arith
may_request_settles failed target r = ground arith
may_request_settles dead_letter target r = ground arith
