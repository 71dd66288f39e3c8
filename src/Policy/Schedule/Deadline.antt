-- ===== src/Policy/Schedule/Deadline.antt =====
-- `testing_schedule_allows` and `testing_schedule_deadline` against what a schedule means.
use pent_ai.Prelude.{
  ℕ, ◌≤◌, ◌<◌, ◌≡◌, refl, ap, subst, ◌↔◌, ◌⊎◌, inl, inr, true, Option, none, some, String, List, [],
  ◌∷◌, arith, All, Any, Option-cases, ◌∙◌,
}
use pent_ai.Policy.Document.{Window, Schedule}
use pent_ai.Policy.Schedule.{
  Zone, greatest, window_end, blackout_starts, window_ends, deadline_of, capped,
  testing_schedule_deadline, testing_schedule_allows, is_some, end_candidates, earliest,
}
use pent_ai.Policy.Schedule.Bounds.{
  least-lt, greatest-lt, greatest-attained, capped-le, capped-lt, capped-le_self,
}
use pent_ai.Policy.Schedule.Windows.{OpensUntil, window_end_iff}
use pent_ai.Policy.Schedule.Open.{
  Covers, Past, Future, blackout_starts-later, blackout_starts_clear, blackout_starts_succeeds,
  blackout_starts_uncovered,
}

end_candidates-later :
    (zone : Zone) (t date e : ℕ) (folds : List ℕ)
    → All (λ c. t < c) (end_candidates zone t date e folds)
unfolding end_candidates
end_candidates-later zone t date e [] = tt
end_candidates-later zone t date e (fold ∷ folds) =
    ground (arith, end_candidates-later zone t date e folds)

earliest-later : (t e : ℕ) (xs : List ℕ) → All (λ c. t < c) xs → earliest xs ≡ some e → t < e
unfolding earliest
earliest-later t e [] a h = cc
earliest-later t e (x ∷ xs) (p, a) h = ground (arith, least-lt t x xs p a)

-- The end of a window that is open lies ahead.
pub window_end-later :
    (zone : Zone) (window : Window) (t e : ℕ) → window_end zone window t ≡ some e → t < e
unfolding window_end
window_end-later zone window t e h =
    let local = zone.to_local t in
    let ends = end_candidates zone t local.date window.end_time (0 ∷ 1 ∷ []) in
    let found : earliest ends ≡ some e = ground arith in
    earliest-later t e ends (end_candidates-later zone t local.date window.end_time _) found

no_end :
    (zone zone' : Zone) (window : Window) (t e : ℕ)
    → zone ≡ zone'
    → window_end zone window t ≡ none
    → ¬ (window_end zone' window t ≡ some e)
no_end zone zone' window t e same w w' = cc

is_some-eq : (o : Option ℕ) → is_some o ≡ true → (d : ℕ) × (o ≡ some d)
unfolding is_some
is_some-eq none h = cc
is_some-eq (some d) h = (d, refl)

deadline_of_parts :
    (ends starts : List ℕ) (t d : ℕ)
    → deadline_of ends starts t ≡ some d
    → (x : ℕ) × (rest : List ℕ) × (ends ≡ x ∷ rest)
      × (d ≡ capped (greatest x rest) starts)
      × (t < d)
unfolding deadline_of
deadline_of_parts [] starts t d h = cc
deadline_of_parts (x ∷ ends) starts t d h = (x, ends, refl, ground arith, ground arith)

module _ (zones : String → Option Zone) where
  abbrev pub Known : Window → Type 0
  Known window = (zone : Zone) × (zones window.timezone ≡ some zone)

  -- The window is open at `t`, until `e`, in the time zone that it names.
  abbrev pub OpenUntil : ℕ → Window → ℕ → Type 0
  OpenUntil t window e =
      (zone : Zone) × (zones window.timezone ≡ some zone) × OpensUntil zone window t e

  abbrev pub IsOpen : ℕ → Window → Type 0
  IsOpen t window = (e : ℕ) × OpenUntil t window e

  -- What a round of the list comprehension does, when the comprehension succeeds.
  abbrev Round : ℕ → Window → List Window → List ℕ → Type 0
  Round t window windows ends =
      (zone : Zone) × (rest : List ℕ) × (zones window.timezone ≡ some zone)
      × (window_ends zones windows t ≡ some rest)
      × (((window_end zone window t ≡ none) × (ends ≡ rest))
          ⊎ ((e : ℕ) × (window_end zone window t ≡ some e) × (ends ≡ e ∷ rest)))

  window-Round :
      (window : Window) (windows : List Window) (t : ℕ) (ends : List ℕ)
      → window_ends zones (window ∷ windows) t ≡ some ends
      → Round t window windows ends
  unfolding window_ends
  window-Round window windows t ends h = elim (Option-cases (zones window.timezone)) [
    | inl e ↦ absurd (ground arith)
    | inr (zone, e) ↦ elim (Option-cases (window_ends zones windows t)) [
      | inl r ↦ absurd (ground arith)
      | inr (rest, r) ↦ elim (Option-cases (window_end zone window t)) [
        | inl w ↦ (zone, rest, e, r, inl (w, ground arith))
        | inr (f, w) ↦ (zone, rest, e, r, inr (f, w, ground arith))
      ]
    ]
  ]

  window_ends-later :
      (windows : List Window) (t : ℕ) (ends : List ℕ)
      → window_ends zones windows t ≡ some ends
      → All (λ e. t < e) ends
  unfolding window_ends
  window_ends-later [] t ends h = let e : [] ≡ ends = ground arith in subst (All (λ e. t < e)) e tt
  window_ends-later (window ∷ windows) t ends h =
      let (zone, rest, z, r, c) = window-Round window windows t ends h in
      let ih = window_ends-later windows t rest r in
      elim c [
        | inl (w, q) ↦ rw q ih
        | inr (e, w, q) ↦ rw q (window_end-later zone window t e w, ih)
      ]

  window_ends-Known :
      (windows : List Window) (t : ℕ) (ends : List ℕ)
      → window_ends zones windows t ≡ some ends
      → All Known windows
  window_ends-Known [] t ends h = tt
  window_ends-Known (window ∷ windows) t ends h =
      let (zone, rest, z, r, c) = window-Round window windows t ends h in
      ((zone, z), window_ends-Known windows t rest r)

  -- Every end that is collected is that of an open window.
  window_ends-open :
      (windows : List Window) (t d : ℕ) (ends : List ℕ)
      → window_ends zones windows t ≡ some ends
      → Any (λ e. d ≤ e) ends
      → Any (λ w. (e : ℕ) × OpenUntil t w e × (d ≤ e)) windows
  unfolding window_ends
  window_ends-open [] t d ends h a =
      let e : ends ≡ [] = ground arith in subst (Any (λ e. d ≤ e)) e a
  window_ends-open (window ∷ windows) t d ends h a =
      let (zone, rest, z, r, c) = window-Round window windows t ends h in
      elim c [
        | inl (w, q) ↦ inr (window_ends-open windows t d rest r (subst (Any (λ e. d ≤ e)) q a))
        | inr (e, w, q) ↦
            let a' : Any (λ e. d ≤ e) (e ∷ rest) = subst (Any (λ e. d ≤ e)) q a in
            elim a' [
              | inl p ↦ inl (e, (zone, z, (window_end_iff zone window t e).0 w), p)
              | inr p ↦ inr (window_ends-open windows t d rest r p)
            ]
      ]

  window_ends_total :
      (windows : List Window) (t : ℕ)
      → All Known windows
      → (ends : List ℕ) × (window_ends zones windows t ≡ some ends)
  unfolding window_ends
  window_ends_total [] t k = ([], refl)
  window_ends_total (window ∷ windows) t ((zone, z), k) =
      let (ends, r) = window_ends_total windows t k in
      elim (Option-cases (window_end zone window t)) [
        | inl w ↦ (ends, ground arith)
        | inr (e, w) ↦ (e ∷ ends, ground arith)
      ]

  window_ends-some :
      (windows : List Window) (t : ℕ) (ends : List ℕ)
      → window_ends zones windows t ≡ some ends
      → Any (IsOpen t) windows
      → (e : ℕ) × (rest : List ℕ) × (ends ≡ e ∷ rest)
  window_ends-some [] t ends h a = elim a [ ]
  window_ends-some (window ∷ windows) t ends h a =
      let (zone, rest, z, r, c) = window-Round window windows t ends h in
      elim c [
        | inr (e, w, q) ↦ (e, rest, q)
        | inl (w, q) ↦ elim a [
          | inl (e, (zone', z', w')) ↦
              let same : zone ≡ zone' = ground arith in
              absurd (no_end zone zone' window t e same w ((window_end_iff zone' window t e).1 w'))
          | inr p ↦ let (e, rest', q') = window_ends-some windows t rest r p in (e, rest', q ∙ q')
        ]
      ]

  deadline_parts :
      (schedule : Schedule) (t d : ℕ)
      → testing_schedule_deadline zones schedule t ≡ some d
      → (starts : List ℕ) × (x : ℕ) × (ends : List ℕ) × (blackout_starts schedule.blackout_periods t
          ≡ some starts)
        × (window_ends zones schedule.allowed_windows t ≡ some (x ∷ ends))
        × (d ≡ capped (greatest x ends) starts)
        × (t < d)
  unfolding testing_schedule_deadline
  deadline_parts schedule t d h =
      elim (Option-cases (blackout_starts schedule.blackout_periods t)) [
        | inl b ↦ absurd (ground arith)
        | inr (starts, b) ↦ elim (Option-cases (window_ends zones schedule.allowed_windows t)) [
          | inl w ↦ absurd (ground arith)
          | inr (ends, w) ↦
              let e : deadline_of ends starts t ≡ some d = ground arith in
              let (x, rest, q, r, l) = deadline_of_parts ends starts t d e in
              (starts, x, rest, b, w ∙ ap some q, r, l)
        ]
      ]

  deadline_found :
      (schedule : Schedule) (t : ℕ) (starts : List ℕ) (x : ℕ) (ends : List ℕ)
      → blackout_starts schedule.blackout_periods t ≡ some starts
      → window_ends zones schedule.allowed_windows t ≡ some (x ∷ ends)
      → t < capped (greatest x ends) starts
      → testing_schedule_deadline zones schedule t ≡ some (capped (greatest x ends) starts)
  unfolding testing_schedule_deadline deadline_of
  deadline_found schedule t starts x ends b w l = rw (b, w) (ground arith)

  IsOpen-of_until :
      (t : ℕ) (windows : List Window)
      → Any (λ w. (e : ℕ) × OpenUntil t w e × (0 ≤ e)) windows
      → Any (IsOpen t) windows
  IsOpen-of_until t [] a = a
  IsOpen-of_until t (w ∷ windows) (inl (e, o, _)) = inl (e, o)
  IsOpen-of_until t (w ∷ windows) (inr a) = inr (IsOpen-of_until t windows a)

  -- The schedule allows an instant exactly when no blackout period covers it, every period that the
  -- code has to read can be read, every window names a known time zone, and a window is open: in its
  -- time zone the local date is one of its weekdays, the local minute is from its start and before
  -- its end, and its end on that date is a later instant in one of the two folds.
  pub testing_schedule_allows_iff :
      (schedule : Schedule) (t : ℕ)
      → testing_schedule_allows zones schedule t ≡ true ↔ (
          All (λ p. Past t p ⊎ Future t p) schedule.blackout_periods
          × All Known schedule.allowed_windows
          × Any (IsOpen t) schedule.allowed_windows)
  unfolding testing_schedule_allows is_some
  testing_schedule_allows_iff schedule t = (
    λ h.
        let (d, e) = is_some-eq (testing_schedule_deadline zones schedule t) h in
        let (starts, x, ends, b, w, q, l) = deadline_parts schedule t d e in
        (
          blackout_starts_clear schedule.blackout_periods t starts b,
          window_ends-Known schedule.allowed_windows t (x ∷ ends) w,
          IsOpen-of_until t schedule.allowed_windows
              (window_ends-open schedule.allowed_windows t 0 (x ∷ ends) w (inl (omega arith))),
        ),
    λ (clear, known, opened).
        let (starts, b) = blackout_starts_succeeds schedule.blackout_periods t clear in
        let (ends, w) = window_ends_total schedule.allowed_windows t known in
        let (x, rest, q) = window_ends-some schedule.allowed_windows t ends w opened in
        let later = window_ends-later schedule.allowed_windows t (x ∷ rest) (w ∙ ap some q) in
        let l =
          capped-lt t (greatest x rest) starts (greatest-lt t x rest later.0)
            (blackout_starts-later schedule.blackout_periods t starts b) in
        ap is_some (deadline_found schedule t starts x rest b (w ∙ ap some q) l),
  )

  -- Until its deadline the schedule stays free of blackouts, and the deadline lies ahead and not
  -- after the end of a window that is open: one whose weekdays hold the local date, with the local
  -- minute from its start and before its end.
  pub testing_schedule_deadline_safe :
      (schedule : Schedule) (t d : ℕ)
      → testing_schedule_deadline zones schedule t ≡ some d
      → (t < d)
        × All (λ p. (u : ℕ) → t ≤ u → u < d → ¬ Covers p u) schedule.blackout_periods
        × Any (λ w. (e : ℕ) × OpenUntil t w e × (d ≤ e)) schedule.allowed_windows
  testing_schedule_deadline_safe schedule t d h =
      let (starts, x, ends, b, w, q, l) = deadline_parts schedule t d h in
      (
        l,
        blackout_starts_uncovered schedule.blackout_periods t d starts b
            (rw q (capped-le (greatest x ends) starts)),
        window_ends-open schedule.allowed_windows t d (x ∷ ends) w
            (greatest-attained d x ends (rw q (capped-le_self (greatest x ends) starts))),
      )
