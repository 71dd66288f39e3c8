-- ===== src/Supervision/Gateway.antt =====
-- gateway_runtime_supervisor.py
use pent_ai.Prelude.{
  ℕ, ◌≡◌, ◌≢◌, ◌⊎◌, Bool, true, false, not, Option, none, some, String, [], ◌∷◌, arith, ◌==◌,
  nat_eq, if◌then◌else◌,
}
use pent_ai.Supervision.{
  stopped, ready, degraded, disabled, is_stopped, Snapshot, Thread, absent, waiting, checking,
  finished, publishing, is_alive, Supervisor, initial,
}

-- `_degrade`; `paused` is whether `pause_safety` returns.
unfoldable pub degrade : Bool → String → Supervisor → Supervisor
degrade paused reason s = record s {
  snapshot = record {
    status = degraded;
    reason_code = some (if paused then reason else "GATEWAY_SAFETY_PAUSE_FAILED");
    count = 0;
    watchdog_running = false;
  };
  pauses = reason ∷ s.pauses;
}

-- `start`; `clock` is whether the clock's check returns, and `recovered` what `recover` answers, `none`
-- for an exception.
unfoldable pub started : Bool → Option ℕ → Bool → Supervisor → Supervisor
started false recovered paused s = degrade paused "GATEWAY_CLOCK_STARTUP_FAILED" s
started true none paused s = degrade paused "GATEWAY_RUNTIME_RECOVERY_FAILED" s
started true (some n) paused s = record s {
  stop = false;
  snapshot = record { status = ready; reason_code = none; count = n; watchdog_running = true };
  held = true;
  thread = waiting;
}

unfoldable pub start : Bool → Option ℕ → Bool → Supervisor → Supervisor
start clock recovered paused s =
    if not (is_stopped s.snapshot.status) then s else started clock recovered paused s

-- The last lines of `stop`
unfoldable pub finish_stop : Option ℕ → Bool → Supervisor → Supervisor
finish_stop none paused s = record (degrade paused "GATEWAY_RUNTIME_SHUTDOWN_FAILED" s) {
  stopping = false;
}
finish_stop (some n) paused s = record s {
  held = false;
  stopping = false;
  snapshot = record { status = stopped; reason_code = none; count = n; watchdog_running = false };
}

-- `stop`, up to the wait for the thread
unfoldable pub begin_stop : Option ℕ → Bool → Supervisor → Supervisor
begin_stop recovered paused s =
    if is_stopped s.snapshot.status
    then s
    else if s.held
    then record s { stop = true; stopping = true }
    else finish_stop recovered paused (record s { stop = true })

-- and from there.
unfoldable pub end_stop : Option ℕ → Bool → Supervisor → Supervisor
end_stop recovered paused s =
    if is_alive s.thread
    then degrade paused "GATEWAY_WATCHDOG_STOP_TIMEOUT" (record s { stopping = false })
    else finish_stop recovered paused s

unfoldable pub checked : Bool → Bool → Bool → Supervisor → Supervisor
checked false check paused s = record (degrade paused "GATEWAY_CLOCK_WATCHDOG_FAILED" s) {
  stop = true;
  thread = finished;
}
checked true false paused s = record (degrade paused "GATEWAY_WATCHDOG_FAILED" s) {
  stop = true;
  thread = finished;
}
checked true true paused s = record s { thread = waiting }

-- `_watch`, one step of it. It publishes nothing.
unfoldable pub watch_at : Thread → Bool → Bool → Bool → Supervisor → Supervisor
watch_at waiting clock check paused s =
    if s.stop then record s { thread = finished } else record s { thread = checking }
watch_at checking clock check paused s = checked clock check paused s
watch_at absent clock check paused s = s
watch_at finished clock check paused s = s
watch_at (publishing n) clock check paused s = s

abbrev pub watch : Bool → Bool → Bool → Supervisor → Supervisor
watch clock check paused s = watch_at s.thread clock check paused s

pub data Step : Supervisor → Supervisor → Type 0 where
  starts :
      (clock : Bool) (recovered : Option ℕ) (paused : Bool) {s : Supervisor}
      → s.stopping ≡ false
      → Step s (start clock recovered paused s)
  begins :
      (recovered : Option ℕ) (paused : Bool) {s : Supervisor}
      → s.stopping ≡ false
      → Step s (begin_stop recovered paused s)
  ends :
      (recovered : Option ℕ) (paused : Bool) {s : Supervisor}
      → s.stopping ≡ true
      → Step s (end_stop recovered paused s)
  watches : (clock check paused : Bool) {s : Supervisor} → Step s (watch clock check paused s)

pub data Steps (s : Supervisor) : Supervisor → Type 0 where
  done : Steps s s
  then_step : {t u : Supervisor} → Steps s t → Step t u → Steps s u

pub record IsConsistent (s : Supervisor) : Type 0 where
  pub live :
      s.snapshot.status ≡ ready → s.stopping ≡ false → (is_alive s.thread ≡ true) × (s.stop ≡ false)
  pub quiet : s.snapshot.status ≡ stopped → is_alive s.thread ≡ false
  pub silent : s.snapshot.status ≡ degraded → is_alive s.thread ≡ true → s.stop ≡ true
  pub alarmed : s.snapshot.status ≡ degraded → s.pauses ≢ []
  pub waits : s.stopping ≡ true → (s.held ≡ true) × (s.stop ≡ true)
  pub owned : s.held ≡ false → is_alive s.thread ≡ false
  pub known :
      (s.snapshot.status ≡ ready) ⊎ ((s.snapshot.status ≡ stopped) ⊎ (s.snapshot.status ≡ degraded))

start-IsConsistent :
    (clock : Bool) (recovered : Option ℕ) (paused : Bool) (s : Supervisor)
    → s.stopping ≡ false
    → IsConsistent s
    → IsConsistent (start clock recovered paused s)
unfolding start started degrade
start-IsConsistent clock recovered paused s h c = ground arith

begin_stop-IsConsistent :
    (recovered : Option ℕ) (paused : Bool) (s : Supervisor)
    → s.stopping ≡ false
    → IsConsistent s
    → IsConsistent (begin_stop recovered paused s)
unfolding begin_stop finish_stop degrade
begin_stop-IsConsistent recovered paused s h c = ground arith

end_stop-IsConsistent :
    (recovered : Option ℕ) (paused : Bool) (s : Supervisor)
    → s.stopping ≡ true
    → IsConsistent s
    → IsConsistent (end_stop recovered paused s)
unfolding end_stop finish_stop degrade
end_stop-IsConsistent recovered paused s h c = ground arith

watch-IsConsistent :
    (clock check paused : Bool) (s : Supervisor)
    → IsConsistent s
    → IsConsistent (watch clock check paused s)
unfolding watch_at checked degrade
watch-IsConsistent clock check paused s c = ground arith

Step-IsConsistent : {s t : Supervisor} → Step s t → IsConsistent s → IsConsistent t
Step-IsConsistent (starts clock recovered paused {s = s} h) c =
    start-IsConsistent clock recovered paused s h c
Step-IsConsistent (begins recovered paused {s = s} h) c =
    begin_stop-IsConsistent recovered paused s h c
Step-IsConsistent (ends recovered paused {s = s} h) c = end_stop-IsConsistent recovered paused s h c
Step-IsConsistent (watches clock check paused {s = s}) c = watch-IsConsistent clock check paused s c

Steps-IsConsistent : {s t : Supervisor} → Steps s t → IsConsistent s → IsConsistent t
Steps-IsConsistent done c = c
Steps-IsConsistent (then_step p q) c = Step-IsConsistent q (Steps-IsConsistent p c)

initial-IsConsistent : IsConsistent initial
initial-IsConsistent = ground arith

-- However the calls and the watchdog's steps interleave, also when the supervisor is stopped and started
-- again: while it shows that it is ready and no call of `stop` is in progress, its watchdog runs and
-- has not been told to stop; when it shows that it is stopped, no watchdog runs; and when it shows that
-- it is degraded, it has called for a pause and no watchdog goes on once its interval has passed.
pub Steps-guarded :
    (s : Supervisor)
    → Steps initial s
    → (s.snapshot.status ≡ ready
        → s.stopping ≡ false
        → (is_alive s.thread ≡ true) × (s.stop ≡ false))
      × ((s.snapshot.status ≡ stopped → is_alive s.thread ≡ false)
          × (s.snapshot.status ≡ degraded
              → (s.pauses ≢ []) × (is_alive s.thread ≡ true → s.stop ≡ true)))
Steps-guarded s p =
    let c = Steps-IsConsistent p initial-IsConsistent in
    (c.live, (c.quiet, λ d. (c.alarmed d, c.silent d)))

-- `UnconfiguredGatewayRuntimeSupervisor.start`; `active` is the count of the unfinished gateways,
-- `none` where the query fails.
unfoldable pub unconfigured_start : Option ℕ → Bool → Snapshot
unconfigured_start active paused =
    if 0 == active_or_one active
    then record { status = disabled; reason_code = none; count = 0; watchdog_running = false }
    else record {
      status = degraded;
      reason_code = some (
          if paused
          then "GATEWAY_RUNTIME_SUPERVISOR_UNAVAILABLE"
          else "GATEWAY_SAFETY_PAUSE_FAILED");
      count = 0;
      watchdog_running = false;
    }
  where
    active_or_one : Option ℕ → ℕ
    active_or_one none = 1
    active_or_one (some n) = n
