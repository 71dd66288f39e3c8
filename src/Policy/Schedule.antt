-- ===== src/Policy/Schedule.antt =====
-- The testing schedule of evaluator.py. The time zone database is not part of the program: a zone
-- is given by its two readings, of an instant in local time and of a local time as an instant.
pub mod Windows
pub mod Bounds
pub mod Open
pub mod Deadline
use Prim.Native.Nat.{min, max}
use pent_ai.Prelude.{
  ℕ, ◌+◌, ◌/◌, ◌%◌, ◌*◌, Bool, true, false, not, ◌&&◌, ◌||◌, Option, none, some, String, List, [],
  ◌∷◌, ◌==◌, nat_eq, contains, if◌then◌else◌, ltb, leb,
}
use pent_ai.Policy.Document.{Stamp, Window, Blackout, Schedule}

-- A local time: the proleptic ordinal of its date, and the microsecond of its day.
pub record Local : Type 0 where
  pub date : ℕ
  pub time : ℕ

-- `ZoneInfo(key)`: `to_local` is `instant.astimezone(zone)`; `to_utc date time fold` reads a local
-- time, ambiguous ones by `fold`.
pub record Zone : Type 0 where
  pub to_local : ℕ → Local
  pub to_utc : ℕ → ℕ → ℕ → ℕ

abbrev pub minute : ℕ
minute = 60000000

-- `local.weekday()`
abbrev pub weekday : ℕ → ℕ
weekday date = (date + 6) % 7

infixl 5 ◌>>=◌
abbrev pub ◌>>=◌ {ℓ κ} : {A : Type ℓ} {B : Type κ} → Option A → (A → Option B) → Option B
none >>= f = none
some a >>= f = f a

-- `min` and `max` of a list that begins with `x`.
unfoldable pub least : ℕ → List ℕ → ℕ
least x [] = x
least x (y ∷ ys) = least (min x y) ys

unfoldable pub greatest : ℕ → List ℕ → ℕ
greatest x [] = x
greatest x (y ∷ ys) = greatest (max x y) ys

-- The instants that the local end of a window may stand for, later than `instant`.
unfoldable pub end_candidates : Zone → ℕ → ℕ → ℕ → List ℕ → List ℕ
end_candidates zone instant date end_time [] = []
end_candidates zone instant date end_time (fold ∷ folds) =
    let candidate = zone.to_utc date (end_time * minute) fold in
    let back = zone.to_local candidate in
    let rest = end_candidates zone instant date end_time folds in
    if (back.date == date && back.time == end_time * minute) && ltb instant candidate
    then candidate ∷ rest
    else rest

unfoldable pub earliest : List ℕ → Option ℕ
earliest [] = none
earliest (x ∷ xs) = some (least x xs)

-- `_window_end`
unfoldable pub window_end : Zone → Window → ℕ → Option ℕ
window_end zone window instant =
    let local = zone.to_local instant in
    let current_time = local.time / minute in
    if not (contains window.days (weekday local.date))
      || not (leb window.start_time current_time && ltb current_time window.end_time)
    then none
    else earliest (end_candidates zone instant local.date window.end_time (0 ∷ 1 ∷ []))

-- The first loop: the starts of the periods to come, or `none` in a blackout or where a timestamp
-- that is read is none.
unfoldable pub blackout_starts : List Blackout → ℕ → Option (List ℕ)
blackout_starts [] instant = some []
blackout_starts (period ∷ periods) instant =
    let rest = blackout_starts periods instant in
    period.starts_at >>= λ starts_at.
    if leb starts_at instant
    then (period.ends_at >>= λ ends_at. if ltb instant ends_at then none else rest)
    else (rest >>= λ starts. some (starts_at ∷ starts))

-- The ends of the windows that are open; an unknown time zone raises.
unfoldable pub window_ends : (String → Option Zone) → List Window → ℕ → Option (List ℕ)
window_ends zones [] instant = some []
window_ends zones (window ∷ windows) instant = do
  zone ← zones window.timezone
  ends ← window_ends zones windows instant
  some (elim (window_end zone window instant) [ none ↦ ends | some end ↦ end ∷ ends ])

-- `min(deadline, min(starts))`, if there are starts
unfoldable pub capped : ℕ → List ℕ → ℕ
unfolding least
capped deadline [] = deadline
capped deadline (x ∷ xs) = min deadline (least x xs)

-- The deadline that the open windows and the blackouts to come leave.
unfoldable pub deadline_of : List ℕ → List ℕ → ℕ → Option ℕ
unfolding capped greatest
deadline_of [] starts instant = none
deadline_of (end ∷ ends) starts instant =
    let deadline = capped (greatest end ends) starts in
    if ltb instant deadline then some deadline else none

-- `testing_schedule_deadline`; `none` where the code returns `None` or catches an exception.
unfoldable pub testing_schedule_deadline : (String → Option Zone) → Schedule → ℕ → Option ℕ
testing_schedule_deadline zones schedule instant = do
  starts ← blackout_starts schedule.blackout_periods instant
  ends ← window_ends zones schedule.allowed_windows instant
  deadline_of ends starts instant

pub is_some {ℓ} : {A : Type ℓ} → Option A → Bool
is_some none = false
is_some (some a) = true

unfoldable pub testing_schedule_allows : (String → Option Zone) → Schedule → ℕ → Bool
unfolding is_some
testing_schedule_allows zones schedule instant =
    is_some (testing_schedule_deadline zones schedule instant)
