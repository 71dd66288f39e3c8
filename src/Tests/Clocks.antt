-- ===== src/Tests/Clocks.antt =====
-- Runs of the clock monitor.
use pent_ai.Prelude.{◌≡◌, refl, ℕ, ◌*◌, none, some, ok}
use pent_ai.ClockHealth.{Baseline, Monitor, progress_untrusted, new_monitor, untrusted, check}
use pent_ai.ClockHealth.Drift.{Checks, none_yet, passes, fails, IsWithin, Checks-IsWithin}

abbrev at : ℕ → ℕ → Baseline
at wall monotonic = record { wall = wall; monotonic = monotonic }

abbrev monitor_at : ℕ → ℕ → Monitor
monitor_at wall monotonic = record { max_drift = 1000; baseline = some (at wall monotonic) }

-- The first check of a new monitor sets the observation.
first_check : new_monitor 1000 ≡ ok (record { max_drift = 1000; baseline = none })
unfolding new_monitor
first_check = refl

sets_baseline :
    check (some 5000) (some 70) (record { max_drift = 1000; baseline = none })
    ≡ (monitor_at 5000 70, ok tt)
unfolding check untrusted
sets_baseline = refl

-- One check passes 400 microseconds ahead, the next is refused.
two-Checks : Checks (monitor_at 5000 70) 1 (monitor_at 9400 4070)
unfolding check untrusted
two-Checks =
    fails {e = progress_untrusted} (some 9000) (some 5000)
      (passes (some 9400) (some 4070) none_yet refl) refl

Checks-IsWithin_example :
    ((monitor_at 9400 4070).max_drift ≡ 1000)
    × ((last : Baseline) × ((some (at 9400 4070) ≡ some last)
          × IsWithin (1 * 1000) (at 5000 70) last))
Checks-IsWithin_example =
    Checks-IsWithin (monitor_at 5000 70) (monitor_at 9400 4070) (at 5000 70) 1 refl two-Checks
