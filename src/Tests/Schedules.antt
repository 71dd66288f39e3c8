-- ===== src/Tests/Schedules.antt =====
-- Runs of the plans on concrete data.
use pent_ai.Policy.Evaluator.{sorted_set}
use pent_ai.Prelude.{
  contains, all_distinct, ℕ_discrete, string_eq, ◌≡◌, ℕ, ◌≢◌, ◌↔◌, ◌<◌, All, refl, Bool, true,
  false, some, String, List, [], ◌∷◌, lookup, insert, ok, err,
}
use pent_ai.Plans.Tasks.{
  running, refresh_dependents, desired, update_task, refresh_task, unsettled, plan_state, Task,
  Edge, TaskState, is_pending, pending, blocked, ready, cancelled, active, dependency_cycle,
  exhausted, integrity,
}
use pent_ai.Plans.Tasks.Moves.Order.{IsOrdered}
use pent_ai.Plans.Graph.Cycles.{reject_cycles_iff}
use pent_ai.Plans.Graph.{
  initial_tasks, release, incoming_count, validate_edges, visit, outgoing, reject_cycles,
}
use pent_ai.Plans.Service.{
  in_row_order, recover_plan, update_each, recover_graph, recover_plans, recover, interrupted, load,
  apply, taken, insert_plan, check_command, settle, prepare, Graph, Database, Command, Environment,
  create, transition,
}
use pent_ai.Plans.Service.Refinement.{Rewrites, Granted, transition-Rewrites}
use pent_ai.Plans.Service.Reachable.{empty, created, Reach-IsOrdered}
use pent_ai.Plans.Service.Stuck.{transition-ne-ok_of_approved, recover-ne-ok_of_approved}

abbrev free : Environment
free = record {
  graph_valid = λ graph. true;
  command_valid = λ command. true;
  graph_digest = λ graph. "graph";
  command_digest = λ command. "command";
  has_third_attempt = λ id. false;
}

abbrev some_task : String → Bool → TaskState → Task
some_task id asks state = record {
  task_id = id;
  task_type = "analysis";
  objective = "look";
  input_refs = [];
  requires_human_approval = asks;
  state = state;
  revision = 1;
  created_at = 100;
  updated_at = 100;
}

abbrev before : String → String → Edge
before p s = record { predecessor_task_id = p; successor_task_id = s; dependency_type = "success" }

abbrev plan_of : List Task → List Edge → Graph
plan_of tasks edges = record {
  plan_id = "plan";
  assessment_id = "assessment";
  idempotency_key = "key";
  revision = 1;
  state = active;
  tasks = tasks;
  dependencies = edges;
  created_at = 100;
  updated_at = 100;
}

abbrev drafted : Graph
drafted =
    plan_of (some_task "a" false pending ∷ some_task "b" true pending ∷ []) (before "a" "b" ∷ [])

abbrev planned : Graph
planned =
    plan_of (some_task "a" false ready ∷ some_task "b" true blocked ∷ []) (before "a" "b" ∷ [])

abbrev holding : Graph → Database
holding graph = record {
  plans = ("plan", record { graph = graph; creation_digest = "graph" }) ∷ [];
  commands = [];
  recovery_failures = [];
}

cycle_refused :
    reject_cycles ("a" ∷ "b" ∷ []) (before "a" "b" ∷ before "b" "a" ∷ []) ≡ err dependency_cycle
unfolding reject_cycles visit ℕ_discrete incoming_count string_eq
cycle_refused = refl

plan_created :
    create free drafted (record { plans = []; commands = []; recovery_failures = [] })
    ≡ ok (holding planned, planned)
unfolding create prepare ℕ_discrete all_distinct string_eq validate_edges reject_cycles visit
    incoming_count release outgoing insert_plan taken load insert initial_tasks in_row_order
plan_created = refl

Reach-IsOrdered_example : IsOrdered (before "a" "b" ∷ []) planned.tasks
unfolding lookup string_eq
Reach-IsOrdered_example =
    Reach-IsOrdered free (holding planned) "plan"
      (record { graph = planned; creation_digest = "graph" })
      (created drafted planned empty plan_created) refl

abbrev cancel_a : Command
cancel_a = record {
  command_id = "cancel";
  plan_id = "plan";
  assessment_id = "assessment";
  task_id = "a";
  expected_plan_revision = 1;
  expected_task_revision = 1;
  target_state = cancelled;
  requested_at = 150;
}

abbrev cancelled_graph : Graph
cancelled_graph = record planned {
  tasks =
      record (some_task "a" false cancelled) { revision = 2; updated_at = 200 }
      ∷ some_task "b" true blocked
      ∷ [];
  revision = 2;
  updated_at = 200;
}

abbrev cancelled_database : Database
cancelled_database = record (holding cancelled_graph) {
  commands = ("cancel", ("command", cancelled_graph)) ∷ [];
}

a_cancelled :
    transition free (some 200) cancel_a (holding planned) ≡ ok (cancelled_database, cancelled_graph)
unfolding transition lookup string_eq apply check_command ℕ_discrete update_task settle
    refresh_dependents refresh_task desired is_pending unsettled load insert plan_state
a_cancelled = refl

transition-Rewrites_example :
    (w : Rewrites "plan" (holding planned) cancelled_database) × (cancelled_graph ≡ w.graph)
    × ((now : ℕ) × (some 200 ≡ some now) × Granted cancel_a now w.stored.graph w.graph)
unfolding lookup
transition-Rewrites_example =
    transition-Rewrites free (some 200) cancel_a (holding planned) cancelled_database
      cancelled_graph refl a_cancelled

-- A human has approved "b", which waits for nothing.
abbrev approved : Graph
approved = plan_of (some_task "a" false ready ∷ some_task "b" true ready ∷ []) []

approved_stuck : transition free (some 200) cancel_a (holding approved) ≡ err integrity
unfolding transition lookup string_eq apply check_command ℕ_discrete update_task settle
    refresh_dependents refresh_task desired is_pending
approved_stuck = refl

b_settled : is_pending [] approved.tasks "b" ≡ false
unfolding is_pending
b_settled = refl

transition-ne-ok_of_approved_example :
    transition free (some 200) cancel_a (holding approved) ≢ ok (holding approved, approved)
unfolding lookup string_eq
transition-ne-ok_of_approved_example =
    transition-ne-ok_of_approved free (some 200) cancel_a
      (record { graph = approved; creation_digest = "graph" }) (holding approved)
      (some_task "b" true ready) (holding approved, approved) refl refl
      (record { found = refl; is_ready = refl; asks = refl; settled = b_settled }) refl

-- "a" was interrupted while "b" stood approved.
abbrev interrupted_plan : Graph
interrupted_plan = plan_of (some_task "a" false running ∷ some_task "b" true ready ∷ []) []

recovery_stuck : recover (some 200) (holding interrupted_plan) ≡ err integrity
unfolding recover recover_plans interrupted sorted_set recover_plan lookup string_eq recover_graph
    update_each update_task settle refresh_dependents refresh_task desired is_pending
recovery_stuck = refl

plan_interrupted : contains (interrupted (holding interrupted_plan).plans) "plan" ≡ true
unfolding interrupted sorted_set string_eq
plan_interrupted = refl

b_settled_too : is_pending [] interrupted_plan.tasks "b" ≡ false
unfolding is_pending
b_settled_too = refl

recover-ne-ok_of_approved_example :
    recover (some 200) (holding interrupted_plan) ≢ ok (holding interrupted_plan, [])
unfolding lookup string_eq
recover-ne-ok_of_approved_example =
    recover-ne-ok_of_approved (some 200) "plan"
      (record { graph = interrupted_plan; creation_digest = "graph" }) (holding interrupted_plan)
      (some_task "b" true ready) (holding interrupted_plan, []) plan_interrupted refl
      (record { found = refl; is_ready = refl; asks = refl; settled = b_settled_too })

-- "a" comes before "b" and "c", and "b" before "c".
abbrev three_edges : List Edge
three_edges = before "b" "c" ∷ before "a" "b" ∷ before "a" "c" ∷ []

three_accepted : reject_cycles ("c" ∷ "a" ∷ "b" ∷ []) three_edges ≡ ok tt
unfolding reject_cycles visit ℕ_discrete incoming_count string_eq release outgoing
three_accepted = refl

reject_cycles_iff_example :
    ((reject_cycles ("c" ∷ "a" ∷ "b" ∷ []) three_edges ≡ ok tt) ↔ (
      (rank : String → ℕ) × All
        (λ edge. rank edge.predecessor_task_id < rank edge.successor_task_id)
        three_edges))
    × (reject_cycles ("c" ∷ "a" ∷ "b" ∷ []) three_edges ≢ err exhausted)
unfolding string_eq
reject_cycles_iff_example =
    reject_cycles_iff ("c" ∷ "a" ∷ "b" ∷ []) three_edges (refl, (refl, (refl, tt)))
      ((refl, refl), ((refl, refl), ((refl, refl), tt)))
