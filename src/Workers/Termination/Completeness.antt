-- ===== src/Workers/Termination/Completeness.antt =====
-- What a recovery that does not fail has ended.
use pent_ai.Prelude.{
  ℕ, ◌≡◌, ◌⊎◌, refl, sym, ap, ◌∙◌, inl, inr, Bool, true, false, not, ◌&&◌, Option, none, some,
  String, List, [], ◌∷◌, Text, arith, ◌==◌, eq_of_==, string_eq, nat_eq, if◌then◌else◌, leb, Any,
  lookup, lookup-insert, Result, ok, err, Bool-cases,
}
use pent_ai.Workers.Registry.Schema.{
  Status, termination_requested, terminated, same_status, is_active, is_none, Row, Table,
  runtime_race,
}
use pent_ai.Workers.Registry.{
  request_termination, finalize_termination, finalize_attempt, final_row, Answer,
}
use pent_ai.Workers.Registry.Frames.{
  Change, request_termination-Change, finalize_termination-Change,
}
use pent_ai.Workers.Registry.Frames
use pent_ai.Workers.Registry.Races.{finalize_attempt-Updated, updated-ok}
use pent_ai.Workers.Termination.{
  RecoveryError, Controller, Runtimes, Readings, Candidate, RecoveryAnswer, find_container,
  end_container, closed, finish, requested, recover_found, recover_controlled, recover_candidate,
  recovery_candidates, terminate_each, terminate_all, failures_of, recovery_invalid,
  controller_failed,
}
use pent_ai.Workers.Termination.Candidates.{
  Covers, recovery_candidates-Covers, recovery_candidates-Any,
}
use pent_ai.Workers.Termination.Endings.{IsEnded, recover_candidate-IsEnded}

-- A change of one worker leaves the others' rows.
Change-frame :
    {id : String} {A B : Table}
    → Change id A B
    → (j : String) → (j == id) ≡ false
    → lookup j B ≡ lookup j A
Change-frame (Frames.same e) j n = ap (lookup j) e
Change-frame {id} {A} (Frames.new row _ _ _ e) j n =
    let l = lookup-insert j id row A in ap (lookup j) e ∙ ground arith
Change-frame {id} {A} (Frames.moved old row _ _ _ e) j n =
    let l = lookup-insert j id row A in ap (lookup j) e ∙ ground arith

-- What a recovery of one worker answers on the table `T`: the others' rows are there, and where it
-- does not fail, the worker is terminated.
record Ends (T : Table) (id : String) (a : RecoveryAnswer) : Type 0 where
  frame : (j : String) → (j == id) ≡ false → lookup j a.0 ≡ lookup j T
  ended : a.1 ≡ ok tt → (row : Row) × ((lookup id a.0 ≡ some row) × (row.status ≡ terminated))

failing : (T : Table) (id : String) (e : RecoveryError) → Ends T id (T, err e)
failing T id e = record { frame = λ j n. refl; ended = λ h. absurd (ground arith) }

module _ (T : Table) (id : String) where
  finalize_termination-ok :
      (n : ℕ) (clock : Option ℕ) (row : Row)
      → (finalize_termination T id n true clock).1 ≡ ok row
      → (lookup id (finalize_termination T id n true clock).0 ≡ some row)
        × (row.status ≡ terminated)
  unfolding finalize_termination final_row
  finalize_termination-ok n clock row h =
      let r = finalize_attempt T id n true clock in
      let (next, (e, (s, found))) = updated-ok T id runtime_race r row h in
      let (t, u) = finalize_attempt-Updated T id n true clock next e in
      let l = lookup-insert id id (final_row true t u.old) T in
      let w = u.written in
      let same : final_row true t u.old ≡ row = ground arith in
      (ap (lookup id) s ∙ found, sym (ap (λ (x : Row). x.status) same))

  closed-Ends :
      (ended : Bool) (a : Answer)
      → ((j : String) → (j == id) ≡ false → lookup j a.0 ≡ lookup j T)
      → ((row : Row)
          → ended ≡ true
          → a.1 ≡ ok row
          → (lookup id a.0 ≡ some row) × (row.status ≡ terminated))
      → Ends T id (closed ended a)
  closed-Ends ended (U, err e) f g = record { frame = f; ended = λ h. absurd (ground arith) }
  closed-Ends true (U, ok row) f g = record { frame = f; ended = λ h. (row, g row refl refl) }
  closed-Ends false (U, ok row) f g = record { frame = f; ended = λ h. absurd (ground arith) }

  finalize-Ends :
      (n : ℕ) (ended : Bool) (clock : Option ℕ)
      → Ends T id (closed ended (finalize_termination T id n ended clock))
  finalize-Ends n true clock =
      closed-Ends true (finalize_termination T id n true clock)
        (Change-frame (finalize_termination-Change T id n true clock))
        (λ row e h. finalize_termination-ok n clock row h)
  finalize-Ends n false clock =
      closed-Ends false (finalize_termination T id n false clock)
        (Change-frame (finalize_termination-Change T id n false clock))
        (λ row e h. absurd (ground arith))

  finish-Ends :
      (controller : Controller) (container : Option String) (n : ℕ) (clock : Option ℕ)
      → Ends T id (finish controller T id container n clock)
  unfolding finish
  finish-Ends controller container n clock =
      finalize-Ends n (end_container controller id container) clock

Ends-after :
    (T U : Table) (id : String) (a : RecoveryAnswer)
    → ((j : String) → (j == id) ≡ false → lookup j U ≡ lookup j T)
    → Ends U id a
    → Ends T id a
Ends-after T U id a f e = record { frame = λ j d. e.frame j d ∙ f j d; ended = e.ended }

module _ (T : Table) (id : String) (controller : Controller) (container : Option String) where
  requested-Ends :
      (clock : Option ℕ) (a : Answer)
      → ((j : String) → (j == id) ≡ false → lookup j a.0 ≡ lookup j T)
      → Ends T id (requested controller id container clock a)
  requested-Ends clock (U, err e) f = record { frame = f; ended = λ h. absurd (ground arith) }
  requested-Ends clock (U, ok row) f =
      Ends-after T U id _ f (finish-Ends U id controller container row.version clock)

if-Ends :
    (T : Table) (id : String) (b : Bool) (x y : RecoveryAnswer)
    → Ends T id x
    → Ends T id y
    → Ends T id (if b then x else y)
if-Ends T id true x y p q = p
if-Ends T id false x y p q = q

module _ (T : Table) (id : String) (row : Row) (reason : Text) (clock clock' : Option ℕ) where
  recover_found-Ends :
      (controller : Controller) (found : Result RecoveryError (Option String))
      → Ends T id (recover_found controller T (id, row) reason clock clock' found)
  recover_found-Ends controller (err e) = failing T id e
  recover_found-Ends controller (ok container) =
      let discovered = if is_none row.container_id then container else none in
      if-Ends T id (same_status row.status termination_requested) _ _
        (finish-Ends T id controller container row.version clock')
        (requested-Ends T id controller container clock'
          (request_termination T id row.version reason discovered clock)
          (Change-frame (request_termination-Change T id row.version reason discovered clock)))

  recover_controlled-Ends :
      (controller : Option Controller)
      → Ends T id (recover_controlled T (id, row) reason clock clock' controller)
  recover_controlled-Ends none = failing T id controller_failed
  recover_controlled-Ends (some controller) =
      recover_found-Ends controller (find_container controller (id, row))

  recover_candidate-Ends :
      (runtimes : Runtimes)
      → Ends T id (recover_candidate runtimes T (id, row) reason (clock, clock'))
  unfolding recover_candidate
  recover_candidate-Ends runtimes =
      if-Ends T id (not (is_active row.status && leb 1 row.version)) _ _
        (failing T id recovery_invalid) (recover_controlled-Ends (runtimes row.oci_runtime))

abbrev Finished : Table → Type 0
Finished T = (j : String) (row : Row) → lookup j T ≡ some row → is_active row.status ≡ false

failures_of-ok : (r : Result RecoveryError (Unit {0})) → failures_of r ≡ 0 → r ≡ ok tt
failures_of-ok (ok u) h = refl
failures_of-ok (err e) h = absurd (omega arith)

terminate_each-Finished :
    (runtimes : Runtimes) (readings : Readings) (reason : Text) (T : Table) (cs : List Candidate)
    → Covers T cs
    → (terminate_each runtimes readings reason T cs).1 ≡ 0
    → Finished (terminate_each runtimes readings reason T cs).0
unfolding terminate_each
terminate_each-Finished runtimes readings reason T [] c h = λ j row found.
    elim (Bool-cases (is_active row.status)) [ inl a ↦ absurd (c j row found a) | inr a ↦ a ]
terminate_each-Finished runtimes readings reason T ((i, first) ∷ cs) c h =
    let step = recover_candidate runtimes T (i, first) reason (readings i) in
    let e = recover_candidate-Ends T i first reason (readings i).0 (readings i).1 runtimes in
    terminate_each-Finished runtimes readings reason step.0 cs
      (λ j row found a. elim (Bool-cases (j == i)) [
        | inl q ↦
            let (last, (there, t)) = e.ended (failures_of-ok step.1 (omega arith)) in
            let k = ap (λ x. lookup x step.0) (eq_of_== j i q) in
            let same : last ≡ row = ground arith in
            let b = ap (λ (r : Row). r.status) same in absurd (ground arith)
        | inr q ↦ elim (c j row (sym (e.frame j q) ∙ found) a) [
          | inl p ↦ absurd (ground arith)
          | inr there ↦ there
        ]
      ])
      (omega arith)

inactive-terminated : (status : Status) → is_active status ≡ false → status ≡ terminated
inactive-terminated status h = ground arith

-- The row was one of these, of the worker `id`, and its container has been ended.
abbrev pub Ended : Runtimes → String → Candidate → Type 0
Ended runtimes id (i, old) = ((id == i) ≡ true) × IsEnded runtimes i old

terminate_each-Ended :
    (runtimes : Runtimes) (readings : Readings) (reason : Text) (T : Table) (cs : List Candidate)
    → (terminate_each runtimes readings reason T cs).1 ≡ 0
    → (id : String) (row : Row)
    → lookup id (terminate_each runtimes readings reason T cs).0 ≡ some row
    → (lookup id T ≡ some row) ⊎ Any (Ended runtimes id) cs
unfolding terminate_each
terminate_each-Ended runtimes readings reason T [] h id row found = inl found
terminate_each-Ended runtimes readings reason T ((i, first) ∷ cs) h id row found =
    let clocks = readings i in
    let step = recover_candidate runtimes T (i, first) reason clocks in
    let e = recover_candidate-Ends T i first reason clocks.0 clocks.1 runtimes in
    let succeeded = failures_of-ok step.1 (omega arith) in
    elim (terminate_each-Ended runtimes readings reason step.0 cs (omega arith) id row found) [
      | inr a ↦ inr (inr a)
      | inl l ↦ elim (Bool-cases (id == i)) [
        | inl q ↦ inr (
            inl
              (q, recover_candidate-IsEnded T i first reason clocks.0 clocks.1 runtimes succeeded))
        | inr n ↦ inl (sym (e.frame id n) ∙ l)
      ]
    ]

-- Whatever the container runtimes answer, a termination of all workers that does not fail leaves
-- every worker of the table terminated, and each was so before, with the same row, or its runtime
-- has verified and terminated its container: the one of its row, or where the row has none the one
-- that it found, if it found one.
pub terminate_all_complete :
    (runtimes : Runtimes) (readings : Readings) (T : Table) (reason : Text) (n : ℕ)
    → (terminate_all runtimes readings T reason).1 ≡ ok n
    → (id : String) (row : Row) → lookup id (terminate_all runtimes readings T reason).0 ≡ some row
    → (row.status ≡ terminated) × ((lookup id T ≡ some row) ⊎ Any (Ended runtimes id) T)
unfolding terminate_all
terminate_all_complete runtimes readings T reason n h id row =
    let cs = recovery_candidates T in
    let last = terminate_each runtimes readings reason T cs in
    elim (Bool-cases (last.1 == 0)) [
      | inl e ↦ rw e (λ found. (
        inactive-terminated row.status (
            terminate_each-Finished runtimes readings reason T cs (recovery_candidates-Covers T)
              (ground arith) id row found),
        elim (terminate_each-Ended runtimes readings reason T cs (ground arith) id row found) [
          | inl l ↦ inl l
          | inr a ↦ inr (recovery_candidates-Any (Ended runtimes id) T a)
        ],
      ))
      | inr e ↦ absurd (ground arith)
    ]
