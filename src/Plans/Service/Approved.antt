-- ===== src/Plans/Service/Approved.antt =====
-- An approved task in the loop of `_refresh_dependents`: the trigger refuses what the loop writes.
use pent_ai.Prelude.{
  ℕ, ◌≡◌, ◌≢◌, refl, sym, subst, ◌∙◌, inl, inr, true, false, not, some, String, List, [], ◌∷◌, ◌==◌,
  string_eq, nat_eq, eq_of_==, arith, Bool-cases, ok, >>=-eq-ok, ok-injective,
}
use pent_ai.Plans.Tasks.{
  awaiting_human, ready, failed, Task, Edge, is_pending, update_task, desired, refresh_task,
  refresh_dependents, is_waiting, may_update, same_state,
}
use pent_ai.Plans.Tasks.Moves.{refresh_task-Moves, update_task-Moves}
use pent_ai.Plans.Tasks.Moves.Order.{Moves-is_pending}
use pent_ai.Plans.Service.{Graph, Stored, find_task, settle, update_each}
use pent_ai.Plans.Service.Targets.{update_task-find_task, update_task-ne-ok}

-- A task that is ready although it asks for approval, and waits for no other
pub record IsApproved (edges : List Edge) (tasks : List Task) (task : Task) : Type 0 where
  pub found : find_task task.task_id tasks ≡ some task
  pub is_ready : task.state ≡ ready
  pub asks : task.requires_human_approval ≡ true
  pub settled : is_pending edges tasks task.task_id ≡ false

pub stored_of_some : (a b : Stored) → some a ≡ some b → a ≡ b
stored_of_some a b h = cc

-- The live row of an approved task
record Live (edges : List Edge) (id : String) (tasks : List Task) : Type 0 where
  task : Task
  found : find_task id tasks ≡ some task
  is_ready : task.state ≡ ready
  settled : is_pending edges tasks id ≡ false

-- A row of another task leaves it alone; a row of its own is refused.
refresh_task-Live :
    (edges : List Edge) (timestamp : ℕ) (row : Task) (id : String) (tasks tasks' : List Task)
    → (row.task_id == id) ≡ false
    → Live edges id tasks
    → refresh_task edges timestamp row tasks ≡ ok tasks'
    → Live edges id tasks'
unfolding refresh_task
refresh_task-Live edges timestamp row id tasks tasks' n live h = record {
  task = live.task;
  found = elim (Bool-cases (not (is_waiting row.state))) [
    | inl e ↦
        let same : tasks ≡ tasks' = ground arith in
        subst (λ ts. find_task id ts ≡ some live.task) same live.found
    | inr e ↦ elim (Bool-cases (same_state (desired edges tasks row) row.state)) [
      | inl s ↦
          let same : tasks ≡ tasks' = ground arith in
          subst (λ ts. find_task id ts ≡ some live.task) same live.found
      | inr s ↦
          update_task-find_task false row.task_id id (desired edges tasks row) timestamp tasks
            tasks' (ground arith) n
          ∙ live.found
    ]
  ];
  is_ready = live.is_ready;
  settled =
      Moves-is_pending (refresh_task-Moves edges timestamp row tasks tasks' h) id live.settled;
}

refresh_task-stuck :
    (edges : List Edge) (timestamp : ℕ) (row : Task) (tasks tasks' : List Task)
    → row.state ≡ ready
    → row.requires_human_approval ≡ true
    → Live edges row.task_id tasks
    → refresh_task edges timestamp row tasks ≢ ok tasks'
unfolding refresh_task desired
refresh_task-stuck edges timestamp row tasks tasks' r a live h =
    let s = live.settled in
    let d : desired edges tasks row ≡ awaiting_human = ground arith in
    let u : update_task false row.task_id (desired edges tasks row) timestamp tasks ≡ ok tasks' =
      ground arith in
    let b : may_update false live.task.state awaiting_human ≡ false =
      subst (λ t. may_update false t awaiting_human ≡ false) (sym live.is_ready) refl in
    update_task-ne-ok false row.task_id awaiting_human timestamp tasks tasks' live.task live.found b
      (subst (λ t. update_task false row.task_id t timestamp tasks ≡ ok tasks') d u)

refresh_dependents-stuck :
    (edges : List Edge) (timestamp : ℕ) (rows tasks tasks' : List Task) (task : Task)
    → find_task task.task_id rows ≡ some task
    → task.state ≡ ready
    → task.requires_human_approval ≡ true
    → Live edges task.task_id tasks
    → refresh_dependents edges timestamp rows tasks ≢ ok tasks'
unfolding refresh_dependents
refresh_dependents-stuck edges timestamp [] tasks tasks' task f r a live h = ground arith
refresh_dependents-stuck edges timestamp (row ∷ rows) tasks tasks' task f r a live h =
    let (middle, e, h₁) = >>=-eq-ok (refresh_task edges timestamp row tasks) _ h in
    elim (Bool-cases (row.task_id == task.task_id)) [
      | inl i ↦
          let same : task ≡ row = ground arith in
          refresh_task-stuck edges timestamp row tasks middle (subst (λ t. t.state ≡ ready) same r)
            (subst (λ t. t.requires_human_approval ≡ true) same a)
            (subst (λ t. Live edges t.task_id tasks) same live) e
      | inr i ↦
          refresh_dependents-stuck edges timestamp rows middle tasks' task (ground arith) r a
            (refresh_task-Live edges timestamp row task.task_id tasks middle i live e) h₁
    ]

pub settle-stuck :
    (timestamp : ℕ) (graph graph' : Graph) (task : Task) (tasks : List Task)
    → find_task task.task_id tasks ≡ some task
    → task.state ≡ ready
    → task.requires_human_approval ≡ true
    → is_pending graph.dependencies tasks task.task_id ≡ false
    → settle timestamp graph tasks ≢ ok graph'
unfolding settle
settle-stuck timestamp graph graph' task tasks f r a p h =
    let (refreshed, e, _) =
      >>=-eq-ok (refresh_dependents graph.dependencies timestamp tasks tasks) _ h in
    refresh_dependents-stuck graph.dependencies timestamp tasks tasks refreshed task f r a
      (record { task = task; found = f; is_ready = r; settled = p }) e

-- Failing other tasks leaves an approved task alone.
pub update_each-IsApproved :
    (edges : List Edge) (ids : List String) (now : ℕ) (tasks tasks' : List Task) (task : Task)
    → IsApproved edges tasks task
    → update_each ids failed now tasks ≡ ok tasks'
    → IsApproved edges tasks' task
unfolding update_each
update_each-IsApproved edges [] now tasks tasks' task a h =
    subst (λ ts. IsApproved edges ts task) (ok-injective h) a
update_each-IsApproved edges (id ∷ ids) now tasks tasks' task a h =
    let (middle, e, h₁) = >>=-eq-ok (update_task true id failed now tasks) _ h in
    elim (Bool-cases (id == task.task_id)) [
      | inl i ↦
          let same = eq_of_== id task.task_id i in
          absurd (
            update_task-ne-ok true task.task_id failed now tasks middle task a.found
              (subst (λ s. may_update true s failed ≡ false) (sym a.is_ready) refl)
              (subst (λ k. update_task true k failed now tasks ≡ ok middle) same e))
      | inr i ↦
          update_each-IsApproved edges ids now middle tasks' task
            (record {
              found =
                  update_task-find_task true id task.task_id failed now tasks middle e i ∙ a.found;
              is_ready = a.is_ready;
              asks = a.asks;
              settled =
                  Moves-is_pending
                    (update_task-Moves edges true id failed now tasks middle
                      (λ n b. absurd (ground arith)) e)
                    task.task_id a.settled;
            })
            h₁
    ]
