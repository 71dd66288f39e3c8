-- ===== src/Plans/Service/Creation.antt =====
-- A plan that `create` makes starts in order: a task is released only if it waits for no other.
use pent_ai.Prelude.{
  any_mono, ◌∙◌, Bool, sort_by, any-sort_by, All-sort_by, All-map, ◌≡◌, ap, subst, inl, inr, true,
  false, not, ◌&&◌, ◌||◌, String, List, [], ◌∷◌, ◌==◌, string_eq, nat_eq, arith, any, All,
  Option-cases, all_distinct, ok, guard, >>=-eq-ok, ok-injective,
}
use pent_ai.Plans.Tasks.{
  unsettled, is_succeeded, pending, Task, Edge, is_pending, same_state, plan_malformed,
  plan_initial_state_invalid, task_initial_state_invalid, plan_time_invalid, task_id_ambiguous,
  plan_identity_conflict,
}
use pent_ai.Plans.Tasks.Moves.Order.{IsOrdered, is_released}
use pent_ai.Plans.Graph.{initial_tasks, validate_edges, reject_cycles}
use pent_ai.Plans.Service.{
  Graph, Stored, Database, Environment, is_active, task_ids, taken, find_key, task_le, edge_le,
  in_row_order, load, prepare, insert_plan, create_again, create,
}
use pent_ai.Plans.Service.Recovery.{AllOrdered, AllOrdered-insert}

initial_tasks-IsOrdered :
    (edges : List Edge) (all_tasks tasks : List Task)
    → All
        (λ task. is_released task.state ≡ true → is_pending edges all_tasks task.task_id ≡ false)
        (initial_tasks edges tasks)
unfolding initial_tasks is_pending
initial_tasks-IsOrdered edges all_tasks [] = tt
initial_tasks-IsOrdered edges all_tasks (task ∷ tasks) = (
  λ r.
      any_mono (λ edge. edge.successor_task_id == task.task_id) _ edges (λ edge h. ground arith)
        (ground arith),
  initial_tasks-IsOrdered edges all_tasks tasks,
)

prepare-IsOrdered :
    (env : Environment) (candidate graph : Graph)
    → prepare env candidate ≡ ok graph
    → IsOrdered graph.dependencies graph.tasks
unfolding prepare
prepare-IsOrdered env candidate graph h =
    let (_, _, h₁) = >>=-eq-ok (guard (env.graph_valid candidate) plan_malformed) _ h in
    let (_, _, h₂) =
      >>=-eq-ok
        (guard (candidate.revision == 1 && is_active candidate.state) plan_initial_state_invalid) _
        h₁ in
    let (_, _, h₃) =
      >>=-eq-ok
        (guard
          (not (
            any (λ (task : Task). not (same_state task.state pending) || not (task.revision == 1))
              candidate.tasks))
          task_initial_state_invalid)
        _ h₂ in
    let (_, _, h₄) =
      >>=-eq-ok (guard (candidate.created_at == candidate.updated_at) plan_time_invalid) _ h₃ in
    let (_, _, h₅) = >>=-eq-ok (guard (all_distinct (task_ids candidate)) task_id_ambiguous) _ h₄ in
    let (edges, _, h₆) =
      >>=-eq-ok (validate_edges candidate.dependencies (task_ids candidate)) _ h₅ in
    let (_, _, h₇) = >>=-eq-ok (reject_cycles (task_ids candidate) edges) _ h₆ in
    subst (λ g. IsOrdered g.dependencies g.tasks) (ok-injective h₇)
      (initial_tasks-IsOrdered edges (initial_tasks edges candidate.tasks) candidate.tasks)

-- The order of the rows does not matter to the order of the work.
is_pending-sort_by :
    (edges : List Edge) (tasks : List Task) (id : String)
    → is_pending (sort_by edge_le edges) (sort_by task_le tasks) id ≡ is_pending edges tasks id
unfolding is_pending unsettled
is_pending-sort_by edges tasks id =
    any-sort_by edge_le
      (λ edge.
        edge.successor_task_id == id && unsettled edge.predecessor_task_id (sort_by task_le tasks))
      edges
    ∙ ap
        (λ (settled : String → Bool).
          any (λ (edge : Edge). edge.successor_task_id == id && settled edge.predecessor_task_id)
            edges)
        (λ i k.
          any-sort_by task_le (λ task. task.task_id == k && not (is_succeeded task.state)) tasks i)

in_row_order-IsOrdered :
    (graph : Graph)
    → IsOrdered graph.dependencies graph.tasks
    → IsOrdered (in_row_order graph).dependencies (in_row_order graph).tasks
unfolding in_row_order
in_row_order-IsOrdered graph o = All-sort_by task_le _ graph.tasks (
    All-map graph.tasks
      (λ task h r. is_pending-sort_by graph.dependencies graph.tasks task.task_id ∙ h r) o)

insert_plan-AllOrdered :
    (env : Environment) (digest : String) (graph result : Graph) (db db' : Database)
    → IsOrdered graph.dependencies graph.tasks
    → insert_plan env digest graph db ≡ ok (db', result)
    → AllOrdered db.plans
    → AllOrdered db'.plans
unfolding insert_plan
insert_plan-AllOrdered env digest graph result db db' o h all =
    let (_, _, h₁) = >>=-eq-ok (guard (not (taken graph db.plans)) plan_identity_conflict) _ h in
    let (loaded, _, h₂) = >>=-eq-ok (load env (in_row_order graph)) _ h₁ in
    subst AllOrdered (ap (λ p. p.0.plans) (ok-injective h₂)) (
      AllOrdered-insert graph.plan_id
        (record { graph = in_row_order graph; creation_digest = digest }) db.plans
        (in_row_order-IsOrdered graph o) all)

create_again-same :
    (env : Environment) (digest : String) (stored : Stored) (result : Graph) (db db' : Database)
    → create_again env digest stored db ≡ ok (db', result)
    → db ≡ db'
unfolding create_again
create_again-same env digest stored result db db' h =
    let (_, _, h₁) =
      >>=-eq-ok (guard (stored.creation_digest == digest) plan_identity_conflict) _ h in
    let (loaded, _, h₂) = >>=-eq-ok (load env stored.graph) _ h₁ in ap (λ p. p.0) (ok-injective h₂)

pub create-AllOrdered :
    (env : Environment) (candidate result : Graph) (db db' : Database)
    → create env candidate db ≡ ok (db', result)
    → AllOrdered db.plans
    → AllOrdered db'.plans
unfolding create
create-AllOrdered env candidate result db db' h all =
    let (graph, p, h₁) = >>=-eq-ok (prepare env candidate) _ h in
    elim (Option-cases (find_key candidate.assessment_id candidate.idempotency_key db.plans)) [
      | inl e ↦
          insert_plan-AllOrdered env (env.graph_digest candidate) graph result db db'
            (prepare-IsOrdered env candidate graph p) (ground arith) all
      | inr (stored, e) ↦
          subst (λ d. AllOrdered d.plans)
            (create_again-same env (env.graph_digest candidate) stored result db db' (ground arith))
            all
    ]
