-- ===== src/ClockHealth.antt =====
-- clock_health.py: `ClockHealthMonitor`, which compares the progress of the wall clock with that of the
-- monotonic clock. Readings, the tolerance and drifts are in microseconds; a reading of the wall clock is
-- `none` where it has no time zone, one of the monotonic clock where it is not finite.
pub mod Drift
use pent_ai.Prelude.{
  ℕ, ◌-◌, ◌+◌, Bool, true, false, not, ◌&&◌, ◌||◌, Option, none, some, if◌then◌else◌, ltb, leb,
  Result, ok, err,
}

pub data ClockError : Type 0 where
  tolerance_invalid observation_invalid progress_untrusted : ClockError

pub record Baseline : Type 0 where
  pub wall : ℕ
  pub monotonic : ℕ

pub record Monitor : Type 0 where
  pub max_drift : ℕ
  pub baseline : Option Baseline

-- `__init__`
unfoldable pub new_monitor : ℕ → Result ClockError Monitor
new_monitor max_drift =
    if ltb 0 max_drift && leb max_drift 5_000_000
    then ok (record { max_drift = max_drift; baseline = none })
    else err tolerance_invalid

-- The condition under which the progress since the baseline is refused; the elapsed times are compared
-- where neither is negative.
unfoldable pub untrusted : ℕ → Option Baseline → ℕ → ℕ → Bool
untrusted max_drift none wall monotonic = false
untrusted max_drift (some prior) wall monotonic =
    let monotonic_elapsed = monotonic - prior.monotonic in
    let wall_elapsed = wall - prior.wall in
    ltb monotonic prior.monotonic
    || (ltb wall prior.wall
        || ltb max_drift ((wall_elapsed - monotonic_elapsed) + (monotonic_elapsed - wall_elapsed)))

-- `check`, under the lock
unfoldable pub check : Option ℕ → Option ℕ → Monitor → Monitor × Result ClockError (Unit {0})
check none monotonic m = (m, err observation_invalid)
check (some wall) none m = (m, err observation_invalid)
check (some wall) (some monotonic) m =
    if untrusted m.max_drift m.baseline wall monotonic then (m, err progress_untrusted) else (
      record {
        max_drift = m.max_drift;
        baseline = some (record { wall = wall; monotonic = monotonic });
      },
      ok tt,
    )
