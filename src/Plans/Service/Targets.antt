-- ===== src/Plans/Service/Targets.antt =====
-- What the updates of a plan leave of a task: the target that a command asks for is not a state that
-- `_refresh_dependents` writes again.
use pent_ai.Prelude.{
  ◌||◌, ℕ, ◌≡◌, ◌≢◌, refl, sym, ap, subst, ◌∙◌, inl, inr, Bool, true, false, not, some, String,
  List, [], ◌∷◌, ◌==◌, string_eq, nat_eq, eq_of_==, if◌then◌else◌, arith, Bool-cases, ok, ◌>>=◌,
  >>=-eq-ok, ok-injective,
}
use pent_ai.Plans.Tasks.{
  running, cancelling, pending, blocked, cancelled, succeeded, dead_letter, TaskState,
  awaiting_human, ready, failed, Task, Edge, update_task, desired, refresh_task, refresh_dependents,
  is_waiting, may_update, moved, same_state,
}
use pent_ai.Plans.Service.{Graph, find_task, settle}

pub update_task-find_task :
    (witnessed : Bool) (id other : String) (target : TaskState) (timestamp : ℕ)
    (tasks tasks' : List Task)
    → update_task witnessed id target timestamp tasks ≡ ok tasks'
    → (id == other) ≡ false
    → find_task other tasks' ≡ find_task other tasks
unfolding update_task
update_task-find_task witnessed id other target timestamp [] tasks' h n =
    ap (find_task other) (sym (ok-injective h))
update_task-find_task witnessed id other target timestamp (task ∷ tasks) tasks' h n =
    elim (Bool-cases (task.task_id == id)) [
      | inl e ↦
          let i = eq_of_== task.task_id id e in
          let same : moved task target timestamp ∷ tasks ≡ tasks' = ground arith in
          let d : (task.task_id == other) ≡ false = subst (λ k. (k == other) ≡ false) (sym i) n in
          subst (λ ts. find_task other ts ≡ find_task other (task ∷ tasks)) same (ground arith)
      | inr e ↦
          let h' : (update_task witnessed id target timestamp tasks >>= λ ts. ok (task ∷ ts))
              ≡ ok tasks' =
            ground arith in
          let (rest, e', h₁) = >>=-eq-ok (update_task witnessed id target timestamp tasks) _ h' in
          let same : task ∷ rest ≡ tasks' = ok-injective h₁ in
          let ih = update_task-find_task witnessed id other target timestamp tasks rest e' n in
          subst (λ ts. find_task other ts ≡ find_task other (task ∷ tasks)) same
            (ap (λ o. if task.task_id == other then some task else o) ih)
    ]

-- An update that the trigger refuses for the task of that name
pub update_task-ne-ok :
    (witnessed : Bool) (id : String) (target : TaskState) (timestamp : ℕ) (tasks tasks' : List Task)
    (task : Task)
    → find_task id tasks ≡ some task
    → may_update witnessed task.state target ≡ false
    → update_task witnessed id target timestamp tasks ≢ ok tasks'
unfolding update_task
update_task-ne-ok witnessed id target timestamp [] tasks' task f n h = ground arith
update_task-ne-ok witnessed id target timestamp (first ∷ tasks) tasks' task f n h =
    elim (Bool-cases (first.task_id == id)) [
      | inl e ↦
          let same : first ≡ task = ground arith in
          let m : may_update witnessed first.state target ≡ false =
            subst (λ t. may_update witnessed t.state target ≡ false) (sym same) n in
          ground arith
      | inr e ↦
          let h' : (update_task witnessed id target timestamp tasks >>= λ ts. ok (first ∷ ts))
              ≡ ok tasks' =
            ground arith in
          let (rest, e', h₁) = >>=-eq-ok (update_task witnessed id target timestamp tasks) _ h' in
          update_task-ne-ok witnessed id target timestamp tasks rest task (ground arith) n e'
    ]

-- An update that succeeds moves the task of that name.
update_task-moved :
    (witnessed : Bool) (id : String) (target : TaskState) (timestamp : ℕ) (tasks tasks' : List Task)
    (task : Task)
    → find_task id tasks ≡ some task
    → update_task witnessed id target timestamp tasks ≡ ok tasks'
    → find_task id tasks' ≡ some (moved task target timestamp)
unfolding update_task
update_task-moved witnessed id target timestamp [] tasks' task f h = absurd (ground arith)
update_task-moved witnessed id target timestamp (first ∷ tasks) tasks' task f h =
    elim (Bool-cases (first.task_id == id)) [
      | inl e ↦
          let same : first ≡ task = ground arith in
          let changed : moved first target timestamp ∷ tasks ≡ tasks' = ground arith in
          subst (λ ts. find_task id ts ≡ some (moved task target timestamp)) changed
            (rw e (ap (λ t. some (moved t target timestamp)) same))
      | inr e ↦
          let h' : (update_task witnessed id target timestamp tasks >>= λ ts. ok (first ∷ ts))
              ≡ ok tasks' =
            ground arith in
          let (rest, e', h₁) = >>=-eq-ok (update_task witnessed id target timestamp tasks) _ h' in
          subst (λ ts. find_task id ts ≡ some (moved task target timestamp)) (ok-injective h₁)
            (rw e
              (update_task-moved witnessed id target timestamp tasks rest task (ground arith) e'))
    ]

-- The trigger lets no other state back among those that `_refresh_dependents` writes.
may_update_waiting :
    (state target : TaskState)
    → is_waiting state ≡ false
    → is_waiting target ≡ true
    → may_update false state target ≡ false
may_update_waiting pending target s t = refl
may_update_waiting blocked target s t = ground arith
may_update_waiting awaiting_human target s t = ground arith
may_update_waiting ready target s t = ground arith
may_update_waiting running target s t = ground arith
may_update_waiting cancelling target s t = ground arith
may_update_waiting cancelled target s t = refl
may_update_waiting succeeded target s t = refl
may_update_waiting failed target s t = ground arith
may_update_waiting dead_letter target s t = refl

desired-is_waiting :
    (edges : List Edge) (tasks : List Task) (row : Task)
    → is_waiting (desired edges tasks row) ≡ true
unfolding desired
desired-is_waiting edges tasks row = ground arith

refresh_task-find_task :
    (edges : List Edge) (timestamp : ℕ) (row : Task) (id : String) (tasks tasks' : List Task)
    (task : Task)
    → find_task id tasks ≡ some task
    → is_waiting task.state ≡ false
    → refresh_task edges timestamp row tasks ≡ ok tasks'
    → find_task id tasks' ≡ some task
unfolding refresh_task
refresh_task-find_task edges timestamp row id tasks tasks' task f n h =
    elim (Bool-cases
      (not (is_waiting row.state) || same_state (desired edges tasks row) row.state)) [
        | inl e ↦
            let same : tasks ≡ tasks' = ground arith in
            subst (λ ts. find_task id ts ≡ some task) same f
        | inr e ↦
            let u : update_task false row.task_id (desired edges tasks row) timestamp tasks
                ≡ ok tasks' =
              ground arith in
            elim (Bool-cases (row.task_id == id)) [
              | inl i ↦
                  let same = eq_of_== row.task_id id i in
                  absurd (
                    update_task-ne-ok false id (desired edges tasks row) timestamp tasks tasks' task
                      f
                      (may_update_waiting task.state (desired edges tasks row) n
                        (desired-is_waiting edges tasks row))
                      (subst
                        (λ k.
                          update_task false k (desired edges tasks row) timestamp tasks ≡ ok tasks')
                        same u))
              | inr i ↦
                  update_task-find_task false row.task_id id (desired edges tasks row) timestamp
                    tasks tasks' u i
                  ∙ f
            ]
      ]

refresh_dependents-find_task :
    (edges : List Edge) (timestamp : ℕ) (rows : List Task) (id : String) (tasks tasks' : List Task)
    (task : Task)
    → find_task id tasks ≡ some task
    → is_waiting task.state ≡ false
    → refresh_dependents edges timestamp rows tasks ≡ ok tasks'
    → find_task id tasks' ≡ some task
unfolding refresh_dependents
refresh_dependents-find_task edges timestamp [] id tasks tasks' task f n h =
    subst (λ ts. find_task id ts ≡ some task) (ok-injective h) f
refresh_dependents-find_task edges timestamp (row ∷ rows) id tasks tasks' task f n h =
    let (middle, e, h₁) = >>=-eq-ok (refresh_task edges timestamp row tasks) _ h in
    refresh_dependents-find_task edges timestamp rows id middle tasks' task
      (refresh_task-find_task edges timestamp row id tasks middle task f n e) n h₁

-- What a command asks for is what the plan has in the end.
pub settle-moved :
    (timestamp : ℕ) (graph graph' : Graph) (id : String) (target : TaskState) (tasks : List Task)
    (task : Task)
    → find_task id graph.tasks ≡ some task
    → is_waiting target ≡ false
    → update_task false id target timestamp graph.tasks ≡ ok tasks
    → settle timestamp graph tasks ≡ ok graph'
    → find_task id graph'.tasks ≡ some (moved task target timestamp)
unfolding settle
settle-moved timestamp graph graph' id target tasks task f n u h =
    let (refreshed, e, h₁) =
      >>=-eq-ok (refresh_dependents graph.dependencies timestamp tasks tasks) _ h in
    subst (λ g. find_task id g.tasks ≡ some (moved task target timestamp)) (ok-injective h₁)
      (refresh_dependents-find_task graph.dependencies timestamp tasks id tasks refreshed
        (moved task target timestamp)
        (update_task-moved false id target timestamp graph.tasks tasks task f u) n e)
