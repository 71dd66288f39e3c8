-- ===== src/Supervision/Worker.antt =====
-- worker_containment_supervisor.py: `WorkerContainmentSupervisor` and its stand-in.
use pent_ai.Prelude.{
  ℕ, ◌≡◌, ◌≢◌, ◌⊎◌, Bool, true, false, not, Option, none, some, String, [], ◌∷◌, arith, ◌==◌,
  nat_eq, if◌then◌else◌,
}
use pent_ai.Supervision.{
  stopped, ready, degraded, disabled, is_degraded, is_stopped, Snapshot, Thread, absent, waiting,
  checking, finished, publishing, is_alive, Supervisor, initial,
}

-- `_degrade`; `paused` and `ended` are whether `pause_safety` and `terminate_workers` return.
unfoldable pub degrade : Bool → Bool → String → Supervisor → Supervisor
degrade paused ended reason s =
    let reason_code = if paused then reason else "WORKER_SAFETY_PAUSE_FAILED" in
    record s {
      snapshot = record {
        status = degraded;
        reason_code = some (if ended then reason_code else "WORKER_TERMINATION_FAILED");
        count = 0;
        watchdog_running = false;
      };
      held = false;
      pauses = reason ∷ s.pauses;
      terminations = reason_code ∷ s.terminations;
    }

-- The snapshot of a check that found `n` workers.
abbrev pub ready_with : ℕ → Snapshot
ready_with n = record { status = ready; reason_code = none; count = n; watchdog_running = true }

abbrev pub stopped_with : ℕ → Snapshot
stopped_with n = record {
  status = stopped;
  reason_code = none;
  count = n;
  watchdog_running = false;
}

-- `start`; `check` is what the recovery and then `check_all` answer, `none` for an exception of either.
unfoldable pub started : Option ℕ → Bool → Bool → Supervisor → Supervisor
started none paused ended s = degrade paused ended "WORKER_CONTAINMENT_STARTUP_FAILED" s
started (some n) paused ended s = record s {
  stop = false;
  snapshot = ready_with n;
  held = true;
  thread = waiting;
}

unfoldable pub start : Option ℕ → Bool → Bool → Supervisor → Supervisor
start check paused ended s =
    if not (is_stopped s.snapshot.status) then s else started check paused ended s

-- The last lines of `stop`
unfoldable pub finish_stop : Supervisor → Supervisor
finish_stop s =
    if is_degraded s.snapshot.status
    then record s { held = false; stopping = false }
    else record s { held = false; stopping = false; snapshot = stopped_with s.snapshot.count }

-- `stop`, up to the wait for the thread
unfoldable pub begin_stop : Supervisor → Supervisor
unfolding finish_stop
begin_stop s =
    if is_stopped s.snapshot.status
    then s
    else if s.held
    then record s { stop = true; stopping = true }
    else finish_stop (record s { stop = true })

-- and from there.
unfoldable pub end_stop : Bool → Bool → Supervisor → Supervisor
unfolding finish_stop
end_stop paused ended s =
    if is_alive s.thread
    then degrade paused ended "WORKER_CONTAINMENT_STOP_TIMEOUT" (record s { stopping = false })
    else finish_stop s

unfoldable pub checked : Option ℕ → Bool → Bool → Supervisor → Supervisor
checked none paused ended s = record (degrade paused ended "WORKER_CONTAINMENT_WATCHDOG_FAILED" s) {
  thread = finished;
  stop = true;
}
checked (some n) paused ended s = record s { thread = publishing n }

-- `_watch`, one step of it.
unfoldable pub watch_at : Thread → Option ℕ → Bool → Bool → Supervisor → Supervisor
watch_at absent check paused ended s = s
watch_at finished check paused ended s = s
watch_at waiting check paused ended s =
    if s.stop then record s { thread = finished } else record s { thread = checking }
watch_at checking check paused ended s = checked check paused ended s
watch_at (publishing n) check paused ended s =
    if s.stop
    then record s { thread = finished }
    else record s { thread = waiting; snapshot = ready_with n }

abbrev pub watch : Option ℕ → Bool → Bool → Supervisor → Supervisor
watch check paused ended s = watch_at s.thread check paused ended s

pub data Step : Supervisor → Supervisor → Type 0 where
  starts :
      (check : Option ℕ) (paused ended : Bool) {s : Supervisor}
      → s.stopping ≡ false
      → Step s (start check paused ended s)
  begins : {s : Supervisor} → s.stopping ≡ false → Step s (begin_stop s)
  ends :
      (paused ended : Bool) {s : Supervisor} → s.stopping ≡ true → Step s (end_stop paused ended s)
  watches :
      (check : Option ℕ) (paused ended : Bool) {s : Supervisor}
      → Step s (watch check paused ended s)

pub data Steps (s : Supervisor) : Supervisor → Type 0 where
  done : Steps s s
  then_step : {t u : Supervisor} → Steps s t → Step t u → Steps s u

pub record IsConsistent (s : Supervisor) : Type 0 where
  pub live :
      s.snapshot.status ≡ ready → s.stopping ≡ false → (is_alive s.thread ≡ true) × (s.stop ≡ false)
  pub quiet : s.snapshot.status ≡ stopped → is_alive s.thread ≡ false
  pub silent : s.snapshot.status ≡ degraded → is_alive s.thread ≡ true → s.stop ≡ true
  pub alarmed : s.snapshot.status ≡ degraded → (s.pauses ≢ []) × (s.terminations ≢ [])
  pub waits : s.stopping ≡ true → s.stop ≡ true
  pub owned : s.held ≡ false → is_alive s.thread ≡ true → s.snapshot.status ≡ degraded
  pub known :
      (s.snapshot.status ≡ ready) ⊎ ((s.snapshot.status ≡ stopped) ⊎ (s.snapshot.status ≡ degraded))

start-IsConsistent :
    (check : Option ℕ) (paused ended : Bool) (s : Supervisor)
    → s.stopping ≡ false
    → IsConsistent s
    → IsConsistent (start check paused ended s)
unfolding start started degrade
start-IsConsistent check paused ended s h c = ground arith

begin_stop-IsConsistent :
    (s : Supervisor) → s.stopping ≡ false → IsConsistent s → IsConsistent (begin_stop s)
unfolding begin_stop finish_stop
begin_stop-IsConsistent s h c = ground arith

end_stop-IsConsistent :
    (paused ended : Bool) (s : Supervisor)
    → s.stopping ≡ true
    → IsConsistent s
    → IsConsistent (end_stop paused ended s)
unfolding end_stop finish_stop degrade
end_stop-IsConsistent paused ended s h c = ground arith

watch-IsConsistent :
    (check : Option ℕ) (paused ended : Bool) (s : Supervisor)
    → IsConsistent s
    → IsConsistent (watch check paused ended s)
unfolding watch_at checked degrade
watch-IsConsistent check paused ended s c = ground arith

Step-IsConsistent : {s t : Supervisor} → Step s t → IsConsistent s → IsConsistent t
Step-IsConsistent (starts check paused ended {s = s} h) c =
    start-IsConsistent check paused ended s h c
Step-IsConsistent (begins {s = s} h) c = begin_stop-IsConsistent s h c
Step-IsConsistent (ends paused ended {s = s} h) c = end_stop-IsConsistent paused ended s h c
Step-IsConsistent (watches check paused ended {s = s}) c = watch-IsConsistent check paused ended s c

Steps-IsConsistent : {s t : Supervisor} → Steps s t → IsConsistent s → IsConsistent t
Steps-IsConsistent done c = c
Steps-IsConsistent (then_step p q) c = Step-IsConsistent q (Steps-IsConsistent p c)

initial-IsConsistent : IsConsistent initial
initial-IsConsistent = ground arith

-- However the calls and the watchdog's steps interleave, also when the supervisor is stopped and started
-- again: while it shows that it is ready and no call of `stop` is in progress, its watchdog runs and
-- has not been told to stop; when it shows that it is stopped, no watchdog runs.
pub Steps-watched :
    (s : Supervisor)
    → Steps initial s
    → (s.snapshot.status ≡ ready
        → s.stopping ≡ false
        → (is_alive s.thread ≡ true) × (s.stop ≡ false))
      × (s.snapshot.status ≡ stopped → is_alive s.thread ≡ false)
Steps-watched s p = let c = Steps-IsConsistent p initial-IsConsistent in (c.live, c.quiet)

Step-degraded :
    {s t : Supervisor}
    → Step s t
    → IsConsistent s
    → s.snapshot.status ≡ degraded
    → t.snapshot.status ≡ degraded
unfolding start started begin_stop end_stop finish_stop watch_at checked degrade
Step-degraded (starts check paused ended {s = s} h) c d = ground arith
Step-degraded (begins {s = s} h) c d = ground arith
Step-degraded (ends paused ended {s = s} h) c d = ground arith
Step-degraded (watches check paused ended {s = s}) c d = let k = c.silent d in ground arith

Steps-degraded_from :
    {s t : Supervisor}
    → Steps s t
    → IsConsistent s
    → s.snapshot.status ≡ degraded
    → t.snapshot.status ≡ degraded
Steps-degraded_from done c d = d
Steps-degraded_from (then_step p q) c d =
    Step-degraded q (Steps-IsConsistent p c) (Steps-degraded_from p c d)

-- Once the supervisor is degraded it stays so, whatever is called and whatever its watchdog finds, and
-- it has called for a pause of the system and for the end of the workers.
pub Steps-contained :
    (s t : Supervisor)
    → Steps initial s
    → s.snapshot.status ≡ degraded
    → Steps s t
    → (t.snapshot.status ≡ degraded) × ((t.pauses ≢ []) × (t.terminations ≢ []))
Steps-contained s t p d q =
    let c = Steps-IsConsistent p initial-IsConsistent in
    let e = Steps-degraded_from q c d in let k = Steps-IsConsistent q c in (e, k.alarmed e)

-- `UnconfiguredWorkerContainmentSupervisor.start`; `active` is the count of unfinished workers, `none`
-- where the query fails.
unfoldable pub unconfigured_start : Option ℕ → Bool → Snapshot
unconfigured_start active paused =
    if 0 == active_or_one active
    then record { status = disabled; reason_code = none; count = 0; watchdog_running = false }
    else record {
      status = degraded;
      reason_code =
          some (if paused then "WORKER_SUPERVISION_UNAVAILABLE" else "WORKER_SAFETY_PAUSE_FAILED");
      count = 0;
      watchdog_running = false;
    }
  where
    active_or_one : Option ℕ → ℕ
    active_or_one none = 1
    active_or_one (some n) = n
