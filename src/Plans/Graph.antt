-- ===== src/Plans/Graph.antt =====
-- The graph of a plan: `_validate_edges`, `_reject_cycles` and `_initial_states` of orchestration.py. A
-- dict of counts or of lists is an association list, and a set of edges is a list with no repetition.
pub mod Members
pub mod Release
pub mod Visits
pub mod Cycles
use Prim.Native.Nat.{Ordering}
use Prim.Native.String.{compare}
use pent_ai.Prelude.{
  ℕ, zero, suc, ◌+◌, ◌-◌, not, ◌||◌, Option, none, some, String, List, [], ◌∷◌, ◌++◌, map, ◌==◌,
  string_eq, nat_eq, Eq, if◌then◌else◌, any, filter, contains, length, all_distinct, Result, ok,
  err, ◌>>◌, guard,
}
use pent_ai.Plans.Tasks.{
  TaskState, blocked, awaiting_human, ready, PlanError, dependency_ambiguous, dependency_missing,
  dependency_cycle, exhausted, Task, Edge,
}

Edge-discrete : Discrete Edge
Edge-discrete = hlevel (string_eq.dec)

instance unfoldable pub edge_eq : Eq Edge
unfolding Edge-discrete
edge_eq = record { dec = Edge-discrete }

-- `_validate_edges`
unfoldable pub validate_edges : List Edge → List String → Result PlanError (List Edge)
validate_edges dependencies task_ids = do
  guard (all_distinct dependencies) dependency_ambiguous
  guard
      (not (
        any
          (λ edge.
            not (contains task_ids edge.predecessor_task_id)
            || not (contains task_ids edge.successor_task_id))
          dependencies))
      dependency_missing
  ok dependencies

-- `sorted(xs)` with the repetitions
abbrev pub insert_id : String → List String → List String
insert_id s [] = s ∷ []
insert_id s (t ∷ ts) = elim (compare s t) [
  | Ordering.lt ↦ s ∷ t ∷ ts
  | Ordering.eq ↦ s ∷ t ∷ ts
  | Ordering.gt ↦ t ∷ insert_id s ts
]

abbrev pub sorted : List String → List String
sorted [] = []
sorted (s ∷ ss) = insert_id s (sorted ss)

-- `_initial_states`
unfoldable pub initial_state : List Edge → Task → TaskState
initial_state edges task =
    if any (λ edge. edge.successor_task_id == task.task_id) edges
    then blocked
    else if task.requires_human_approval
    then awaiting_human
    else ready

unfoldable pub initial_tasks : List Edge → List Task → List Task
unfolding initial_state
initial_tasks edges = map (λ (task : Task). record task { state = initial_state edges task })

-- The counts of `incoming` and the lists of `outgoing`
unfoldable pub incoming_count : List Edge → String → ℕ
incoming_count [] id = 0
incoming_count (edge ∷ edges) id =
    (if edge.successor_task_id == id then 1 else 0) + incoming_count edges id

unfoldable pub outgoing : List Edge → String → List String
outgoing edges id =
    map (λ (edge : Edge). edge.successor_task_id)
      (filter (λ edge. edge.predecessor_task_id == id) edges)

abbrev pub Counts : Type 0
Counts = String → ℕ

-- `incoming[id] -= 1`
abbrev pub decrement : String → Counts → Counts
decrement id counts = λ x. if x == id then counts x - 1 else counts x

-- The inner loop: the counts and the ready tasks, sorted again where one is added.
unfoldable pub release : List String → Counts → List String → Counts × List String
release [] counts queue = (counts, queue)
release (id ∷ ids) counts queue =
    release ids (decrement id counts)
      (if decrement id counts id == 0 then sorted (queue ++ (id ∷ [])) else queue)

-- The outer loop, with fuel: how many tasks are visited, `none` where the fuel is spent.
unfoldable pub visit : List Edge → ℕ → Counts → List String → ℕ → Option ℕ
visit edges fuel counts [] visited = some visited
visit edges zero counts (current ∷ queue) visited = none
visit edges (suc fuel) counts (current ∷ queue) visited =
    let (counts', queue') = release (sorted (outgoing edges current)) counts queue in
    visit edges fuel counts' queue' (suc visited)

-- `_reject_cycles`: each round visits one task.
unfoldable pub reject_cycles : List String → List Edge → Result PlanError (Unit {0})
reject_cycles task_ids edges =
    elim (visit edges (suc (length task_ids)) (incoming_count edges)
      (sorted (filter (λ id. incoming_count edges id == 0) task_ids)) 0) [
        | none ↦ err exhausted
        | some visited ↦ guard (visited == length task_ids) dependency_cycle
      ]
