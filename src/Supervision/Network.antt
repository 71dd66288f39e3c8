-- ===== src/Supervision/Network.antt =====
-- network_safety_supervisor.py
use pent_ai.Prelude.{
  ℕ, ◌≡◌, ◌≢◌, ◌⊎◌, Bool, true, false, ◌||◌, Option, none, some, String, [], ◌∷◌, arith,
  if◌then◌else◌,
}
use pent_ai.Supervision.{
  stopped, ready, degraded, disabled, is_degraded, Snapshot, Thread, absent, waiting, checking,
  finished, publishing, is_alive, Supervisor, initial,
}

-- `_degrade`; `paused` is whether `pause_safety` returns.
unfoldable pub degrade : Bool → String → Supervisor → Supervisor
degrade paused reason s = record s {
  snapshot = record {
    status = degraded;
    reason_code = some (if paused then reason else "NETWORK_SAFETY_PAUSE_FAILED");
    count = s.snapshot.count;
    watchdog_running = false;
  };
  pauses = reason ∷ s.pauses;
}

-- The snapshot of a check that found `n` assessments.
abbrev pub ready_with : ℕ → Snapshot
ready_with n = record { status = ready; reason_code = none; count = n; watchdog_running = true }

abbrev pub stopped_with : ℕ → Snapshot
stopped_with n = record {
  status = stopped;
  reason_code = none;
  count = n;
  watchdog_running = false;
}

-- `start`; `check` is what `check_all` answers, `none` for an exception.
unfoldable pub started : Option ℕ → Bool → Supervisor → Supervisor
started none paused s = degrade paused "NETWORK_IDENTITY_STARTUP_FAILED" s
started (some n) paused s = record s {
  stop = false;
  snapshot = ready_with n;
  held = true;
  thread = waiting;
}

unfoldable pub start : Option ℕ → Bool → Supervisor → Supervisor
start check paused s = if s.held || is_degraded s.snapshot.status then s else started check paused s

-- `stop`, up to the wait for the thread
unfoldable pub begin_stop : Supervisor → Supervisor
begin_stop s =
    if s.held
    then record s { stop = true; stopping = true }
    else if is_degraded s.snapshot.status
    then s
    else record s { snapshot = stopped_with 0 }

-- and from there.
unfoldable pub end_stop : Bool → Supervisor → Supervisor
end_stop paused s =
    let t = record s { held = false; stopping = false } in
    if is_alive s.thread
    then degrade paused "NETWORK_WATCHDOG_STOP_TIMEOUT" t
    else if is_degraded s.snapshot.status
    then t
    else record t { snapshot = stopped_with s.snapshot.count }

unfoldable pub checked : Option ℕ → Bool → Supervisor → Supervisor
checked none paused s = record (degrade paused "NETWORK_IDENTITY_WATCHDOG_FAILED" s) {
  thread = finished;
}
checked (some n) paused s = record s { thread = publishing n }

-- `_watchdog`, one step of it.
unfoldable pub watch_at : Thread → Option ℕ → Bool → Supervisor → Supervisor
watch_at absent check paused s = s
watch_at finished check paused s = s
watch_at waiting check paused s =
    if s.stop then record s { thread = finished } else record s { thread = checking }
watch_at checking check paused s = checked check paused s
watch_at (publishing n) check paused s =
    if s.stop
    then record s { thread = finished }
    else record s { thread = waiting; snapshot = ready_with n }

abbrev pub watch : Option ℕ → Bool → Supervisor → Supervisor
watch check paused s = watch_at s.thread check paused s

pub data Step : Supervisor → Supervisor → Type 0 where
  starts :
      (check : Option ℕ) (paused : Bool) {s : Supervisor}
      → s.stopping ≡ false
      → Step s (start check paused s)
  begins : {s : Supervisor} → s.stopping ≡ false → Step s (begin_stop s)
  ends : (paused : Bool) {s : Supervisor} → s.stopping ≡ true → Step s (end_stop paused s)
  watches : (check : Option ℕ) (paused : Bool) {s : Supervisor} → Step s (watch check paused s)

pub data Steps (s : Supervisor) : Supervisor → Type 0 where
  done : Steps s s
  then_step : {t u : Supervisor} → Steps s t → Step t u → Steps s u

pub record IsConsistent (s : Supervisor) : Type 0 where
  pub live :
      s.snapshot.status ≡ ready
      → s.stopping ≡ false
      → (is_alive s.thread ≡ true) × (s.stop ≡ false) × (s.held ≡ true)
  pub quiet : s.snapshot.status ≡ stopped → is_alive s.thread ≡ false
  pub shown : s.snapshot.watchdog_running ≡ true → s.snapshot.status ≡ ready
  pub silent : s.snapshot.status ≡ degraded → is_alive s.thread ≡ true → s.stop ≡ true
  pub alarmed : s.snapshot.status ≡ degraded → s.pauses ≢ []
  pub waits : s.stopping ≡ true → (s.held ≡ true) × (s.stop ≡ true)
  pub owned : s.held ≡ false → is_alive s.thread ≡ true → s.snapshot.status ≡ degraded
  pub known :
      (s.snapshot.status ≡ ready) ⊎ ((s.snapshot.status ≡ stopped) ⊎ (s.snapshot.status ≡ degraded))

start-IsConsistent :
    (check : Option ℕ) (paused : Bool) (s : Supervisor)
    → s.stopping ≡ false
    → IsConsistent s
    → IsConsistent (start check paused s)
unfolding start started degrade
start-IsConsistent check paused s h c = ground arith

begin_stop-IsConsistent :
    (s : Supervisor) → s.stopping ≡ false → IsConsistent s → IsConsistent (begin_stop s)
unfolding begin_stop
begin_stop-IsConsistent s h c = ground arith

end_stop-IsConsistent :
    (paused : Bool) (s : Supervisor)
    → s.stopping ≡ true
    → IsConsistent s
    → IsConsistent (end_stop paused s)
unfolding end_stop degrade
end_stop-IsConsistent paused s h c = ground arith

watch-IsConsistent :
    (check : Option ℕ) (paused : Bool) (s : Supervisor)
    → IsConsistent s
    → IsConsistent (watch check paused s)
unfolding watch_at checked degrade
watch-IsConsistent check paused s c = ground arith

Step-IsConsistent : {s t : Supervisor} → Step s t → IsConsistent s → IsConsistent t
Step-IsConsistent (starts check paused {s = s} h) c = start-IsConsistent check paused s h c
Step-IsConsistent (begins {s = s} h) c = begin_stop-IsConsistent s h c
Step-IsConsistent (ends paused {s = s} h) c = end_stop-IsConsistent paused s h c
Step-IsConsistent (watches check paused {s = s}) c = watch-IsConsistent check paused s c

Steps-IsConsistent : {s t : Supervisor} → Steps s t → IsConsistent s → IsConsistent t
Steps-IsConsistent done c = c
Steps-IsConsistent (then_step p q) c = Step-IsConsistent q (Steps-IsConsistent p c)

initial-IsConsistent : IsConsistent initial
initial-IsConsistent = ground arith

-- However the calls and the watchdog's steps interleave, also when the supervisor is stopped and started
-- again: while it shows that it is ready and no call of `stop` is in progress, its watchdog runs and
-- has not been told to stop; when it shows that it is stopped, no watchdog runs.
pub Steps-live :
    (s : Supervisor)
    → Steps initial s
    → (s.snapshot.status ≡ ready
        → s.stopping ≡ false
        → (is_alive s.thread ≡ true) × (s.stop ≡ false))
      × (s.snapshot.status ≡ stopped → is_alive s.thread ≡ false)
Steps-live s p =
    let c = Steps-IsConsistent p initial-IsConsistent in
    (λ r n. let (alive, going, _) = c.live r n in (alive, going), c.quiet)

Step-degraded :
    {s t : Supervisor}
    → Step s t
    → IsConsistent s
    → s.snapshot.status ≡ degraded
    → t.snapshot.status ≡ degraded
unfolding start started begin_stop end_stop watch_at checked degrade
Step-degraded (starts check paused {s = s} h) c d = ground arith
Step-degraded (begins {s = s} h) c d = ground arith
Step-degraded (ends paused {s = s} h) c d = ground arith
Step-degraded (watches check paused {s = s}) c d = let k = c.silent d in ground arith

Steps-degraded_from :
    {s t : Supervisor}
    → Steps s t
    → IsConsistent s
    → s.snapshot.status ≡ degraded
    → t.snapshot.status ≡ degraded
Steps-degraded_from done c d = d
Steps-degraded_from (then_step p q) c d =
    Step-degraded q (Steps-IsConsistent p c) (Steps-degraded_from p c d)

-- Once the supervisor is degraded it stays so, whatever is called and whatever its watchdog finds, and
-- it has called for a pause of the system.
pub Steps-degraded :
    (s t : Supervisor)
    → Steps initial s
    → s.snapshot.status ≡ degraded
    → Steps s t
    → (t.snapshot.status ≡ degraded) × (t.pauses ≢ [])
Steps-degraded s t p d q =
    let c = Steps-IsConsistent p initial-IsConsistent in
    let e = Steps-degraded_from q c d in let k = Steps-IsConsistent q c in (e, k.alarmed e)

-- `UnconfiguredNetworkSafetySupervisor.status`: what it shows and the reason that it keeps.
-- `authority` is what `authority_exists` answers, `none` for an exception.
unfoldable pub unconfigured_found : Option String → Bool → Bool → Snapshot × Option String
unconfigured_found reason true paused =
    let named = if paused then or_unavailable reason else "NETWORK_SAFETY_PAUSE_FAILED" in
    (
      record { status = degraded; reason_code = some named; count = 0; watchdog_running = false },
      some named,
    )
  where
    or_unavailable : Option String → String
    or_unavailable none = "NETWORK_IDENTITY_MONITOR_UNAVAILABLE"
    or_unavailable (some r) = r
unconfigured_found reason false paused =
    (record { status = disabled; reason_code = none; count = 0; watchdog_running = false }, reason)

unfoldable pub unconfigured_status : Option Bool → Bool → Option String → Snapshot × Option String
unconfigured_status authority paused (some r) = (
  record { status = degraded; reason_code = some r; count = 0; watchdog_running = false },
  some r,
)
unconfigured_status (some exists) paused none = unconfigured_found none exists paused
unconfigured_status none paused none =
    unconfigured_found (some "NETWORK_IDENTITY_MONITOR_STATE_FAILED") true paused

-- Where no monitor is configured, a status that shows the supervisor as degraded is what every later
-- call shows, whatever the database says by then.
pub unconfigured_status-degraded :
    (authority again : Option Bool) (paused paused' : Bool) (reason : Option String)
    → (unconfigured_status authority paused reason).0.status ≡ degraded
    → (unconfigured_status again paused' (unconfigured_status authority paused reason).1)
      ≡ unconfigured_status authority paused reason
unfolding unconfigured_status unconfigured_found
unconfigured_status-degraded authority again paused paused' reason h = ground arith
