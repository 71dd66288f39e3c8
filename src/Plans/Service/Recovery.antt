-- ===== src/Plans/Service/Recovery.antt =====
-- The recovery moves the tasks of a plan as `transition` does, and keeps the plans in order.
use pent_ai.Prelude.{
  ℕ, ◌≡◌, sym, ap, subst, inl, inr, true, some, String, List, [], ◌∷◌, ◌==◌, string_eq, nat_eq,
  arith, Bool-cases, Dict, lookup, insert, lookup-insert, ok, or_fail, >>=-eq-ok, ok-injective,
  or_fail-eq-ok,
}
use pent_ai.Plans.Tasks.{running, cancelling, failed, Task, Edge, update_task, plan_not_found}
use pent_ai.Plans.Tasks.Moves.{Moves, Moves-trans, still, update_task-Moves}
use pent_ai.Plans.Tasks.Moves.Order.{IsOrdered, Moves-IsOrdered}
use pent_ai.Plans.Service.{
  Graph, Stored, Database, update_each, in_state, recover_graph, recover_plan, recover_plans,
}
use pent_ai.Plans.Service.Refinement.{Follows, Rewrites, settle-Follows}

update_each-Moves :
    (edges : List Edge) (ids : List String) (now : ℕ) (tasks tasks' : List Task)
    → update_each ids failed now tasks ≡ ok tasks'
    → Moves edges tasks tasks'
unfolding update_each
update_each-Moves edges [] now tasks tasks' h = subst (Moves edges tasks) (ok-injective h) still
update_each-Moves edges (id ∷ ids) now tasks tasks' h =
    let (middle, e, h₁) = >>=-eq-ok (update_task true id failed now tasks) _ h in
    Moves-trans
      (update_task-Moves edges true id failed now tasks middle (λ n b. absurd (ground arith)) e)
      (update_each-Moves edges ids now middle tasks' h₁)

recover_graph-Follows :
    (now : ℕ) (graph graph' : Graph) → recover_graph now graph ≡ ok graph' → Follows graph graph'
unfolding recover_graph
recover_graph-Follows now graph graph' h =
    let (tasks, e, h₁) =
      >>=-eq-ok (update_each (in_state running graph.tasks) failed now graph.tasks) _ h in
    let (tasks', e', h₂) =
      >>=-eq-ok (update_each (in_state cancelling tasks) failed now tasks) _ h₁ in
    settle-Follows now graph graph' tasks'
      (Moves-trans
        (update_each-Moves graph.dependencies (in_state running graph.tasks) now graph.tasks tasks
          e)
        (update_each-Moves graph.dependencies (in_state cancelling tasks) now tasks tasks' e'))
      h₂

pub recover_plan-Rewrites :
    (now : ℕ) (id : String) (db db' : Database)
    → recover_plan now id db ≡ ok db'
    → Rewrites id db db'
unfolding recover_plan
recover_plan-Rewrites now id db db' h =
    let (stored, f, h₁) = >>=-eq-ok (or_fail (lookup id db.plans) plan_not_found) _ h in
    let (graph, e, h₂) = >>=-eq-ok (recover_graph now stored.graph) _ h₁ in
    record {
      stored = stored;
      graph = graph;
      found = or_fail-eq-ok (lookup id db.plans) plan_not_found f;
      written = ap (λ d. d.plans) (sym (ok-injective h₂));
      follows = recover_graph-Follows now stored.graph graph e;
    }

-- Every plan works in order.
abbrev pub AllOrdered : Dict String Stored → Type 0
AllOrdered plans =
    (id : String) (stored : Stored)
    → lookup id plans ≡ some stored
    → IsOrdered stored.graph.dependencies stored.graph.tasks

pub AllOrdered-insert :
    (id : String) (stored : Stored) (plans : Dict String Stored)
    → IsOrdered stored.graph.dependencies stored.graph.tasks
    → AllOrdered plans
    → AllOrdered (insert id stored plans)
AllOrdered-insert id stored plans o all other row h =
    let l = lookup-insert other id stored plans in
    elim (Bool-cases (other == id)) [
      | inl e ↦
          let same : stored ≡ row = ground arith in
          subst (λ s. IsOrdered s.graph.dependencies s.graph.tasks) same o
      | inr e ↦ all other row (ground arith)
    ]

pub Rewrites-AllOrdered :
    {id : String} {db db' : Database}
    → Rewrites id db db'
    → AllOrdered db.plans
    → AllOrdered db'.plans
Rewrites-AllOrdered {id} {db} w all =
    let f = w.follows in
    subst AllOrdered (sym w.written) (
      AllOrdered-insert id (record w.stored { graph = w.graph }) db.plans
        (subst (λ d. IsOrdered d w.graph.tasks) (sym f.dependencies)
          (Moves-IsOrdered f.moves (all id w.stored w.found)))
        all)

pub recover_plans-AllOrdered :
    (now : ℕ) (ids : List String) (db db' : Database)
    → recover_plans now ids db ≡ ok db'
    → AllOrdered db.plans
    → AllOrdered db'.plans
unfolding recover_plans
recover_plans-AllOrdered now [] db db' h all = subst (λ d. AllOrdered d.plans) (ok-injective h) all
recover_plans-AllOrdered now (id ∷ ids) db db' h all =
    let (middle, e, h₁) = >>=-eq-ok (recover_plan now id db) _ h in
    recover_plans-AllOrdered now ids middle db' h₁
      (Rewrites-AllOrdered (recover_plan-Rewrites now id db middle e) all)
