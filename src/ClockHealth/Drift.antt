-- ===== src/ClockHealth/Drift.antt =====
-- How far the clocks drift apart over the checks that pass.
use pent_ai.Prelude.{
  ℕ, false, suc, ◌+◌, ◌*◌, ◌≤◌, ◌≡◌, refl, sym, inl, inr, Option, none, some, arith, ok, err,
  Bool-cases, ap, ◌∙◌, subst, ◌↔◌,
}
use pent_ai.ClockHealth.{ClockError, Baseline, Monitor, untrusted, check}

-- The checks that are made, with the number of those that pass
pub data Checks (m : Monitor) : ℕ → Monitor → Type 0 where
  none_yet : Checks m 0 m
  passes :
      {n : ℕ} {before after : Monitor} (wall monotonic : Option ℕ)
      → Checks m n before
      → check wall monotonic before ≡ (after, ok tt)
      → Checks m (suc n) after
  fails :
      {n : ℕ} {before after : Monitor} {e : ClockError} (wall monotonic : Option ℕ)
      → Checks m n before
      → check wall monotonic before ≡ (after, err e)
      → Checks m n after

-- From one observation to another no clock runs backwards, and they drift by `drift` at most.
pub record IsWithin (drift : ℕ) (first last : Baseline) : Type 0 where
  pub wall_forward : first.wall ≤ last.wall
  pub monotonic_forward : first.monotonic ≤ last.monotonic
  pub wall_ahead : last.wall + first.monotonic ≤ last.monotonic + first.wall + drift
  pub wall_behind : last.monotonic + first.wall ≤ last.wall + first.monotonic + drift

untrusted-IsWithin :
    (max_drift : ℕ) (prior : Baseline) (wall monotonic : ℕ)
    → untrusted max_drift (some prior) wall monotonic ≡ false
    → IsWithin max_drift prior (record { wall = wall; monotonic = monotonic })
unfolding untrusted
untrusted-IsWithin max_drift prior wall monotonic h = record {
  wall_forward = ground arith;
  monotonic_forward = ground arith;
  wall_ahead = ground arith;
  wall_behind = ground arith;
}

IsWithin-add :
    {a b : ℕ} {first middle last : Baseline}
    → IsWithin a first middle
    → IsWithin b middle last
    → IsWithin (b + a) first last
IsWithin-add p q =
    let wf = p.wall_forward in
    let mf = p.monotonic_forward in
    let wa = p.wall_ahead in
    let wb = p.wall_behind in
    let wf' = q.wall_forward in
    let mf' = q.monotonic_forward in
    let wa' = q.wall_ahead in
    let wb' = q.wall_behind in
    record {
      wall_forward = omega arith;
      monotonic_forward = omega arith;
      wall_ahead = omega arith;
      wall_behind = omega arith;
    }

untrusted-false :
    (max_drift : ℕ) (prior : Baseline) (wall monotonic : ℕ)
    → IsWithin max_drift prior (record { wall = wall; monotonic = monotonic })
    → untrusted max_drift (some prior) wall monotonic ≡ false
unfolding untrusted
untrusted-false max_drift prior wall monotonic w =
    let wf = w.wall_forward in
    let mf = w.monotonic_forward in let wa = w.wall_ahead in let wb = w.wall_behind in ground arith

-- A check of two readings that are valid, after an observation, passes if and only if neither clock runs
-- backwards from the observation and the two do not drift apart by more than the tolerance.
pub check_iff :
    (m : Monitor) (prior : Baseline) (wall monotonic : ℕ)
    → m.baseline ≡ some prior
    → (check (some wall) (some monotonic) m).1 ≡ ok tt
      ↔ IsWithin m.max_drift prior (record { wall = wall; monotonic = monotonic })
unfolding check
check_iff m prior wall monotonic b = (
  λ h.
      untrusted-IsWithin m.max_drift prior wall monotonic
        (subst (λ o. untrusted m.max_drift o wall monotonic ≡ false) b (ground arith)),
  λ w.
      let u : untrusted m.max_drift m.baseline wall monotonic ≡ false =
        subst (λ o. untrusted m.max_drift o wall monotonic ≡ false) (sym b)
          (untrusted-false m.max_drift prior wall monotonic w) in
      ground arith,
)

-- What a check that passes leaves
record Passed (before : Monitor) (prior : Baseline) (after : Monitor) : Type 0 where
  last : Baseline
  kept : after.baseline ≡ some last
  tolerance : after.max_drift ≡ before.max_drift
  within : IsWithin before.max_drift prior last

check-Passed :
    (wall monotonic : Option ℕ) (before after : Monitor) (prior : Baseline)
    → before.baseline ≡ some prior
    → check wall monotonic before ≡ (after, ok tt)
    → Passed before prior after
unfolding check
check-Passed none monotonic before after prior b h = absurd (ground arith)
check-Passed (some wall) none before after prior b h = absurd (ground arith)
check-Passed (some wall) (some monotonic) before after prior b h =
    let at : Baseline = record { wall = wall; monotonic = monotonic } in
    elim (Bool-cases (untrusted before.max_drift before.baseline wall monotonic)) [
      | inl u ↦ absurd (ground arith)
      | inr u ↦
          let e : record { max_drift = before.max_drift; baseline = some at } ≡ after =
            ground arith in
          record {
            last = at;
            kept = sym (ap (λ m. m.baseline) e);
            tolerance = sym (ap (λ m. m.max_drift) e);
            within =
                untrusted-IsWithin before.max_drift prior wall monotonic
                  (subst (λ o. untrusted before.max_drift o wall monotonic ≡ false) b u);
          }
    ]

check-failed :
    (wall monotonic : Option ℕ) (before after : Monitor) (e : ClockError)
    → check wall monotonic before ≡ (after, err e)
    → before ≡ after
unfolding check
check-failed none monotonic before after e h = ground arith
check-failed (some wall) none before after e h = ground arith
check-failed (some wall) (some monotonic) before after e h = ground arith

IsWithin-refl : (first : Baseline) → IsWithin 0 first first
IsWithin-refl first = record {
  wall_forward = omega arith;
  monotonic_forward = omega arith;
  wall_ahead = omega arith;
  wall_behind = omega arith;
}

-- Over any checks that are made of a monitor that has an observation, failed ones between them, neither
-- clock of the observation that is kept last runs behind the first, and the two drift apart by no more
-- than the tolerance for each check that passed; the tolerance stays what it is.
pub Checks-IsWithin :
    (m after : Monitor) (first : Baseline) (n : ℕ)
    → m.baseline ≡ some first
    → Checks m n after
    → (after.max_drift ≡ m.max_drift)
      × ((last : Baseline) × ((after.baseline ≡ some last) × IsWithin (n * m.max_drift) first last))
Checks-IsWithin m after first n b none_yet =
    (refl, (first, (b, subst (λ d. IsWithin d first first) (omega arith) (IsWithin-refl first))))
Checks-IsWithin m after first n b (passes {n = k} {before = before} wall monotonic run h) =
    let (t, (middle, (kept, w))) = Checks-IsWithin m before first k b run in
    let p = check-Passed wall monotonic before after middle kept h in
    let w' = subst (λ d. IsWithin d middle p.last) t p.within in
    (
      p.tolerance ∙ t,
      (p.last, (p.kept, subst (λ d. IsWithin d first p.last) (omega arith) (IsWithin-add w w'))),
    )
Checks-IsWithin m after first n b (fails {before = before} {e = e} wall monotonic run h) =
    let same = check-failed wall monotonic before after e h in
    subst
      (λ s.
        (s.max_drift ≡ m.max_drift)
        × ((last : Baseline) × ((s.baseline ≡ some last) × IsWithin (n * m.max_drift) first last)))
      same (Checks-IsWithin m before first n b run)
