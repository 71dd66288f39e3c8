-- ===== src/Policy/Schedule/Windows.antt =====
-- When a testing window is open, and until when, said without the loop of `_window_end`.
use Prim.Native.Nat.{min}
use pent_ai.Prelude.{
  ℕ, ◌*◌, ◌/◌, ◌≤◌, ◌<◌, ◌≡◌, sym, ◌↔◌, ◌⊎◌, refl, inl, inr, Bool, true, false, ◌&&◌, some, [], ◌∷◌,
  ◌==◌, nat_eq, if◌then◌else◌, contains, ltb, leb, arith, Bool-cases,
}
use pent_ai.Policy.Document.{Window}
use pent_ai.Policy.Schedule.{Zone, minute, weekday, least, end_candidates, earliest, window_end}

-- The instant `c` is later than `t` and reads as this local time.
abbrev pub ReadsAs : Zone → ℕ → ℕ → ℕ → ℕ → Type 0
ReadsAs zone t date time c =
    (((zone.to_local c).date ≡ date) × ((zone.to_local c).time ≡ time)) × (t < c)

-- An instant to come that reads as the end of the window on the local date, in either fold.
abbrev pub IsEnd : Zone → Window → ℕ → ℕ → ℕ → Type 0
IsEnd zone window t date c =
    ((c ≡ zone.to_utc date (window.end_time * minute) 0)
      ⊎ (c ≡ zone.to_utc date (window.end_time * minute) 1))
    × ReadsAs zone t date (window.end_time * minute) c

-- The window is open at `t` until `e`: the local date is one of its weekdays, the local minute is in
-- it, and `e` is the first of its ends to come.
pub record OpensUntil (zone : Zone) (window : Window) (t e : ℕ) : Type 0 where
  pub on_day : contains window.days (weekday (zone.to_local t).date) ≡ true
  pub from_start : window.start_time ≤ (zone.to_local t).time / minute
  pub before_end : (zone.to_local t).time / minute < window.end_time
  pub is_end : IsEnd zone window t (zone.to_local t).date e
  pub first : (c : ℕ) → IsEnd zone window t (zone.to_local t).date c → e ≤ c

min-left : (a b : ℕ) → a ≤ b → min a b ≡ a
min-left a b l = omega arith

min-right : (a b : ℕ) → b < a → min a b ≡ b
min-right a b l = omega arith

-- The earlier of those of two instants that pass their tests
earliest_iff :
    (a b e : ℕ) (p q : Bool)
    → (earliest (if p then a ∷ (if q then b ∷ [] else []) else (if q then b ∷ [] else [])) ≡ some e)
      ↔ ((((e ≡ a) × (p ≡ true)) ⊎ ((e ≡ b) × (q ≡ true)))
          × ((p ≡ true → e ≤ a) × (q ≡ true → e ≤ b)))
unfolding earliest least
earliest_iff a b e true true = elim (Bool-cases (leb a b)) [
  | inl l ↦ let m = min-left a b (ground arith) in rw m (ground arith)
  | inr l ↦ let m = min-right a b (ground arith) in rw m (ground arith)
]
earliest_iff a b e true false = ground arith
earliest_iff a b e false true = ground arith
earliest_iff a b e false false = ground arith

reads_iff :
    (d date s time t c : ℕ)
    → (((d == date && s == time) && ltb t c) ≡ true) ↔ (((d ≡ date) × (s ≡ time)) × (t < c))
reads_iff d date s time t c = ground arith

window_end-parts :
    (zone : Zone) (window : Window) (t e : ℕ)
    → window_end zone window t ≡ some e
    → (contains window.days (weekday (zone.to_local t).date) ≡ true)
      × (window.start_time ≤ (zone.to_local t).time / minute)
      × ((zone.to_local t).time / minute < window.end_time)
      × (earliest (end_candidates zone t (zone.to_local t).date window.end_time (0 ∷ 1 ∷ []))
          ≡ some e)
unfolding window_end
window_end-parts zone window t e h = ground arith

window_end-of_parts :
    (zone : Zone) (window : Window) (t e : ℕ)
    → contains window.days (weekday (zone.to_local t).date) ≡ true
    → window.start_time ≤ (zone.to_local t).time / minute
    → (zone.to_local t).time / minute < window.end_time
    → earliest (end_candidates zone t (zone.to_local t).date window.end_time (0 ∷ 1 ∷ [])) ≡ some e
    → window_end zone window t ≡ some e
unfolding window_end
window_end-of_parts zone window t e c l m h = ground arith

-- The test of the loop of `_window_end`
abbrev passes : Zone → ℕ → ℕ → ℕ → ℕ → Bool
passes zone t date time c =
    ((zone.to_local c).date == date && (zone.to_local c).time == time) && ltb t c

passes_iff :
    (zone : Zone) (t date time c : ℕ)
    → (passes zone t date time c ≡ true) ↔ ReadsAs zone t date time c
passes_iff zone t date time c =
    reads_iff (zone.to_local c).date date (zone.to_local c).time time t c

IsEnd-iff :
    (zone : Zone) (window : Window) (t date e : ℕ)
    → (earliest (end_candidates zone t date window.end_time (0 ∷ 1 ∷ [])) ≡ some e)
      ↔ (IsEnd zone window t date e × ((c : ℕ) → IsEnd zone window t date c → e ≤ c))
unfolding end_candidates
IsEnd-iff zone window t date e =
    let at = window.end_time * minute in
    let a = zone.to_utc date at 0 in
    let b = zone.to_utc date at 1 in
    let p = passes_iff zone t date at a in
    let q = passes_iff zone t date at b in
    let ends = earliest_iff a b e (passes zone t date at a) (passes zone t date at b) in
    (
      λ h.
          let (which, (f, g)) = ends.0 h in
          (
            elim which [
              | inl (same, r) ↦ (inl same, rw same (p.0 r))
              | inr (same, r) ↦ (inr same, rw same (q.0 r))
            ],
            λ c (which', r). elim which' [
              | inl same ↦ rw same (f (p.1 (rw (sym same) r)))
              | inr same ↦ rw same (g (q.1 (rw (sym same) r)))
            ],
          ),
      λ ((which, r), first). ends.1 (
        elim which [
          | inl same ↦ inl (same, p.1 (rw (sym same) r))
          | inr same ↦ inr (same, q.1 (rw (sym same) r))
        ],
        (λ x. first a (inl refl, p.0 x), λ x. first b (inr refl, q.0 x)),
      ),
    )

-- `_window_end` finds an end exactly when the window is open until it.
pub window_end_iff :
    (zone : Zone) (window : Window) (t e : ℕ)
    → (window_end zone window t ≡ some e) ↔ OpensUntil zone window t e
window_end_iff zone window t e =
    let ends = IsEnd-iff zone window t (zone.to_local t).date e in
    (
      λ h.
          let (days, start, before, found) = window_end-parts zone window t e h in
          let (last, least_of) = ends.0 found in
          record {
            on_day = days;
            from_start = start;
            before_end = before;
            is_end = last;
            first = least_of;
          },
      λ o.
          window_end-of_parts zone window t e o.on_day o.from_start o.before_end
            (ends.1 (o.is_end, o.first)),
    )
