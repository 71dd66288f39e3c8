-- ===== src/Plans/Tasks/Moves.antt =====
-- An abstract view of the tasks of a plan: one task at a time changes its state, along the arrows of the
-- trigger, and none leaves `blocked` for work before the tasks that it waits for have succeeded. The
-- updates and `_refresh_dependents` are such moves.
pub mod Order
use pent_ai.Prelude.{
  ℕ, suc, ◌≡◌, ◌≢◌, ◌⊎◌, refl, sym, ap, subst, ◌∙◌, inl, inr, Bool, true, false, not, ◌&&◌, String,
  List, [], ◌∷◌, ◌++◌, ◌==◌, string_eq, eq_of_==, if◌then◌else◌, arith, Bool-cases, Result, ok, err,
  ◌>>=◌, ◌>>◌, guard, >>=-eq-ok, ok-injective, guard-eq-ok,
}
use pent_ai.Plans.Tasks.{
  TaskState, blocked, cancelled, PlanError, integrity, Task, Edge, may_update, moved, update_task,
  is_pending, desired, is_waiting, same_state, refresh_task, refresh_dependents,
}

-- What a change to a state asks of the others
abbrev pub MayLeave : List Edge → List Task → Task → TaskState → Type 0
MayLeave edges tasks task target =
    task.state ≡ blocked → target ≢ cancelled → is_pending edges tasks task.task_id ≡ false

pub record Move (edges : List Edge) (tasks tasks' : List Task) : Type 0 where
  pub before : List Task
  pub task : Task
  pub after : List Task
  pub target : TaskState
  pub timestamp : ℕ
  pub witnessed : Bool
  pub found : tasks ≡ before ++ (task ∷ after)
  pub written : tasks' ≡ before ++ (moved task target timestamp ∷ after)
  pub permitted : may_update witnessed task.state target ≡ true
  pub settled : MayLeave edges tasks task target

pub data Moves (edges : List Edge) (tasks : List Task) : List Task → Type 0 where
  still : Moves edges tasks tasks
  next :
      {middle last : List Task}
      → Moves edges tasks middle
      → Move edges middle last
      → Moves edges tasks last

pub Moves-trans :
    {edges : List Edge} {a b c : List Task} → Moves edges a b → Moves edges b c → Moves edges a c
Moves-trans p still = p
Moves-trans p (next q m) = next (Moves-trans p q) m

-- What an update does: nothing, or a change of the one task of that name.
pub record Written (witnessed : Bool) (id : String) (target : TaskState) (timestamp : ℕ)
    (tasks tasks' : List Task) : Type 0 where
  pub before : List Task
  pub task : Task
  pub after : List Task
  pub found : tasks ≡ before ++ (task ∷ after)
  pub written : tasks' ≡ before ++ (moved task target timestamp ∷ after)
  pub named : task.task_id ≡ id
  pub permitted : may_update witnessed task.state target ≡ true

Written-cons :
    {witnessed : Bool} {id : String} {target : TaskState} {timestamp : ℕ} {tasks tasks' : List Task}
    → (first : Task) → Written witnessed id target timestamp tasks tasks'
    → Written witnessed id target timestamp (first ∷ tasks) (first ∷ tasks')
Written-cons first w = record {
  before = first ∷ w.before;
  task = w.task;
  after = w.after;
  found = ap (λ ts. first ∷ ts) w.found;
  written = ap (λ ts. first ∷ ts) w.written;
  named = w.named;
  permitted = w.permitted;
}

pub update_task-Written :
    (witnessed : Bool) (id : String) (target : TaskState) (timestamp : ℕ) (tasks tasks' : List Task)
    → update_task witnessed id target timestamp tasks ≡ ok tasks'
    → (tasks ≡ tasks') ⊎ Written witnessed id target timestamp tasks tasks'
unfolding update_task
update_task-Written witnessed id target timestamp [] tasks' h = inl (ok-injective h)
update_task-Written witnessed id target timestamp (task ∷ tasks) tasks' h =
    elim (Bool-cases (task.task_id == id)) [
      | inl e ↦ inr (record {
        before = [];
        task = task;
        after = tasks;
        found = refl;
        written = ground arith;
        named = eq_of_== task.task_id id e;
        permitted = ground arith;
      })
      | inr e ↦
          let h' : (update_task witnessed id target timestamp tasks >>= λ ts. ok (task ∷ ts))
              ≡ ok tasks' =
            ground arith in
          let (rest, e', h₁) = >>=-eq-ok (update_task witnessed id target timestamp tasks) _ h' in
          let same : task ∷ rest ≡ tasks' = ok-injective h₁ in
          elim (update_task-Written witnessed id target timestamp tasks rest e') [
            | inl s ↦ inl (ap (λ ts. task ∷ ts) s ∙ same)
            | inr w ↦ inr (
                subst (Written witnessed id target timestamp (task ∷ tasks)) same
                  (Written-cons task w))
          ]
    ]

-- An update is a move, if whoever asks for it has seen that the task may leave `blocked`.
pub update_task-Moves :
    (edges : List Edge) (witnessed : Bool) (id : String) (target : TaskState) (timestamp : ℕ)
    → (tasks tasks' : List Task)
    → (target ≢ cancelled
        → may_update witnessed blocked target ≡ true
        → is_pending edges tasks id ≡ false)
    → update_task witnessed id target timestamp tasks ≡ ok tasks'
    → Moves edges tasks tasks'
update_task-Moves edges witnessed id target timestamp tasks tasks' settled h =
    elim (update_task-Written witnessed id target timestamp tasks tasks' h) [
      | inl e ↦ subst (Moves edges tasks) e still
      | inr w ↦ next still (record {
        before = w.before;
        task = w.task;
        after = w.after;
        target = target;
        timestamp = timestamp;
        witnessed = witnessed;
        found = w.found;
        written = w.written;
        permitted = w.permitted;
        settled = λ b c.
            subst (λ i. is_pending edges tasks i ≡ false) (sym w.named)
              (settled c (subst (λ s. may_update witnessed s target ≡ true) b w.permitted));
      })
    ]

-- Nothing goes back to `blocked`.
may_update_blocked :
    (witnessed : Bool) (state : TaskState) → may_update witnessed state blocked ≡ false
may_update_blocked witnessed TaskState.pending = refl
may_update_blocked witnessed TaskState.blocked = refl
may_update_blocked witnessed TaskState.awaiting_human = refl
may_update_blocked witnessed TaskState.ready = refl
may_update_blocked witnessed TaskState.running = refl
may_update_blocked witnessed TaskState.cancelling = refl
may_update_blocked witnessed TaskState.cancelled = refl
may_update_blocked witnessed TaskState.succeeded = refl
may_update_blocked witnessed TaskState.failed = refl
may_update_blocked witnessed TaskState.dead_letter = refl

pub refresh_task-Moves :
    (edges : List Edge) (timestamp : ℕ) (row : Task) (tasks tasks' : List Task)
    → refresh_task edges timestamp row tasks ≡ ok tasks'
    → Moves edges tasks tasks'
unfolding refresh_task desired
refresh_task-Moves edges timestamp row tasks tasks' h = elim (Bool-cases (is_waiting row.state)) [
  | inr e ↦ let same : tasks ≡ tasks' = ground arith in subst (Moves edges tasks) same still
  | inl e ↦ elim (Bool-cases (same_state (desired edges tasks row) row.state)) [
    | inl s ↦ let same : tasks ≡ tasks' = ground arith in subst (Moves edges tasks) same still
    | inr s ↦
        let u : update_task false row.task_id (desired edges tasks row) timestamp tasks
            ≡ ok tasks' =
          ground arith in
        elim (Bool-cases (is_pending edges tasks row.task_id)) [
          | inr p ↦
              update_task-Moves edges false row.task_id (desired edges tasks row) timestamp tasks
                tasks' (λ _ _. p) u
          | inl p ↦
              let d : desired edges tasks row ≡ blocked = ground arith in
              elim (update_task-Written false row.task_id blocked timestamp tasks tasks'
                (subst (λ t. update_task false row.task_id t timestamp tasks ≡ ok tasks') d u)) [
                  | inl same ↦ subst (Moves edges tasks) same still
                  | inr w ↦
                      let impossible = may_update_blocked false w.task.state in
                      let permitted = w.permitted in absurd (ground arith)
                ]
        ]
  ]
]

pub refresh_dependents-Moves :
    (edges : List Edge) (timestamp : ℕ) (rows tasks tasks' : List Task)
    → refresh_dependents edges timestamp rows tasks ≡ ok tasks'
    → Moves edges tasks tasks'
unfolding refresh_dependents
refresh_dependents-Moves edges timestamp [] tasks tasks' h =
    subst (Moves edges tasks) (ok-injective h) still
refresh_dependents-Moves edges timestamp (row ∷ rows) tasks tasks' h =
    let (middle, e, h₁) = >>=-eq-ok (refresh_task edges timestamp row tasks) _ h in
    Moves-trans (refresh_task-Moves edges timestamp row tasks middle e)
      (refresh_dependents-Moves edges timestamp rows middle tasks' h₁)
