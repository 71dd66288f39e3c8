-- ===== src/Plans/Tasks/Moves/Order.antt =====
-- Along the moves of a plan no task works before the tasks that it waits for have succeeded.
use pent_ai.Prelude.{
  any-append, any_mono, All-append, All-split, ℕ, ◌≡◌, ◌≢◌, ◌⊎◌, refl, sym, subst, inl, inr, Bool,
  true, false, not, ◌&&◌, String, List, ◌∷◌, ◌++◌, ◌==◌, string_eq, arith, All, All-map,
}
use pent_ai.Plans.Tasks.{
  TaskState, pending, blocked, awaiting_human, ready, running, cancelling, cancelled, succeeded,
  failed, dead_letter, Task, Edge, is_succeeded, may_update, moved, unsettled, is_pending,
}
use pent_ai.Plans.Tasks.Moves.{Move, Moves, still, next, MayLeave}

-- A state that a task comes to only when what it waits for has succeeded
abbrev pub is_released : TaskState → Bool
is_released blocked = false
is_released cancelled = false
is_released _ = true

abbrev pub IsOrdered : List Edge → List Task → Type 0
IsOrdered edges tasks =
    All (λ task. is_released task.state ≡ true → is_pending edges tasks task.task_id ≡ false) tasks

-- What has succeeded stays so.
succeeded_stays :
    (witnessed : Bool) (state target : TaskState)
    → may_update witnessed state target ≡ true
    → is_succeeded state ≡ false
succeeded_stays witnessed pending target h = refl
succeeded_stays witnessed blocked target h = refl
succeeded_stays witnessed awaiting_human target h = refl
succeeded_stays witnessed ready target h = refl
succeeded_stays witnessed running target h = refl
succeeded_stays witnessed cancelling target h = refl
succeeded_stays witnessed cancelled target h = refl
succeeded_stays witnessed succeeded target h = absurd (ground arith)
succeeded_stays witnessed failed target h = refl
succeeded_stays witnessed dead_letter target h = refl

-- Where a task leaves for work it worked already, or was blocked.
released_before :
    (witnessed : Bool) (state target : TaskState)
    → may_update witnessed state target ≡ true
    → is_released target ≡ true
    → (is_released state ≡ true) ⊎ ((state ≡ blocked) × (target ≢ cancelled))
released_before witnessed pending target h r = absurd (ground arith)
released_before witnessed blocked target h r = inr (refl, λ c. ground arith)
released_before witnessed awaiting_human target h r = inl refl
released_before witnessed ready target h r = inl refl
released_before witnessed running target h r = inl refl
released_before witnessed cancelling target h r = inl refl
released_before witnessed cancelled target h r = absurd (ground arith)
released_before witnessed succeeded target h r = inl refl
released_before witnessed failed target h r = inl refl
released_before witnessed dead_letter target h r = inl refl

module _ (before : List Task) (task : Task) (after : List Task) (target : TaskState) (timestamp : ℕ)
    (witnessed : Bool) (permitted : may_update witnessed task.state target ≡ true) where
  unsettled_mono :
      (id : String)
      → unsettled id (before ++ (task ∷ after)) ≡ false
      → unsettled id (before ++ (moved task target timestamp ∷ after)) ≡ false
  unfolding unsettled
  unsettled_mono id h =
      let test : Task → Bool = λ t. t.task_id == id && not (is_succeeded t.state) in
      let s = succeeded_stays witnessed task.state target permitted in
      let a = any-append test before (task ∷ after) in
      let b = any-append test before (moved task target timestamp ∷ after) in ground arith

  pub is_pending_mono :
      (edges : List Edge) (id : String)
      → is_pending edges (before ++ (task ∷ after)) id ≡ false
      → is_pending edges (before ++ (moved task target timestamp ∷ after)) id ≡ false
  unfolding is_pending
  is_pending_mono edges id =
      any_mono _ _ edges (λ edge h. let m = unsettled_mono edge.predecessor_task_id in ground arith)

  IsOrdered-moved :
      (edges : List Edge)
      → MayLeave edges (before ++ (task ∷ after)) task target
      → IsOrdered edges (before ++ (task ∷ after))
      → IsOrdered edges (before ++ (moved task target timestamp ∷ after))
  IsOrdered-moved edges settled ordered =
      let old = λ (t : Task).
        is_released t.state ≡ true
        → is_pending edges (before ++ (task ∷ after)) t.task_id ≡ false in
      let new = λ (t : Task).
        is_released t.state ≡ true
        → is_pending edges (before ++ (moved task target timestamp ∷ after)) t.task_id ≡ false in
      let keep : (t : Task) → old t → new t = λ t f r. is_pending_mono edges t.task_id (f r) in
      let (front, (own, back)) = All-split old before (task ∷ after) ordered in
      All-append new before (moved task target timestamp ∷ after) (All-map before keep front) (
        λ r. elim (released_before witnessed task.state target permitted r) [
          | inl w ↦ is_pending_mono edges task.task_id (own w)
          | inr (b, c) ↦ is_pending_mono edges task.task_id (settled b c)
        ],
        All-map after keep back,
      )

Move-IsOrdered :
    {edges : List Edge} {tasks tasks' : List Task}
    → Move edges tasks tasks'
    → IsOrdered edges tasks
    → IsOrdered edges tasks'
Move-IsOrdered {edges} m ordered = subst (IsOrdered edges) (sym m.written) (
    IsOrdered-moved m.before m.task m.after m.target m.timestamp m.witnessed m.permitted edges
      (λ b c. subst (λ ts. is_pending edges ts m.task.task_id ≡ false) m.found (m.settled b c))
      (subst (IsOrdered edges) m.found ordered))

pub Moves-IsOrdered :
    {edges : List Edge} {tasks tasks' : List Task}
    → Moves edges tasks tasks'
    → IsOrdered edges tasks
    → IsOrdered edges tasks'
Moves-IsOrdered still ordered = ordered
Moves-IsOrdered (next ms m) ordered = Move-IsOrdered m (Moves-IsOrdered ms ordered)

pub Moves-is_pending :
    {edges : List Edge} {tasks tasks' : List Task}
    → Moves edges tasks tasks'
    → (id : String) → is_pending edges tasks id ≡ false
    → is_pending edges tasks' id ≡ false
Moves-is_pending still id p = p
Moves-is_pending {edges} (next ms m) id p =
    subst (λ ts. is_pending edges ts id ≡ false) (sym m.written)
      (is_pending_mono m.before m.task m.after m.target m.timestamp m.witnessed m.permitted edges id
        (subst (λ ts. is_pending edges ts id ≡ false) m.found (Moves-is_pending ms id p)))
