-- ===== src/Workers/Attachments/Resolution.antt =====
-- What a recovery of the attachments that does not fail has resolved.
use Prim.Native.Nat.{Ordering}
use Prim.Native.String.{compare}
use pent_ai.Prelude.{
  ℕ, ◌≡◌, ◌≢◌, ◌⊎◌, ◌↔◌, refl, sym, ap, ◌∙◌, inl, inr, Bool, true, false, not, ◌&&◌, ◌||◌, Option,
  none, some, String, List, [], ◌∷◌, Text, arith, ◌==◌, eq_of_==, string_eq, nat_eq, if◌then◌else◌,
  leb, length, Any, Dict, lookup, lookup-insert, Result, ok, err, Bool-cases,
}
use pent_ai.Workers.Registry.Schema.{is_none, Table, Row, terminated}
use pent_ai.Workers.Names.{is_identifier, strip_spaces}
use pent_ai.Workers.Termination.{Runtimes, Readings, RecoveryAnswer, terminate_worker}
use pent_ai.Workers.Attachments.{
  AttachmentError, denied, conflict, stale, invalid, race, not_found, clock_invalid,
  recovery_invalid, recovery_conflict, recovery_pending, recovery_incomplete, runtime_recovery,
  AttachmentStatus, failed, is_failed, Attachment, Store, Answer, ResolveAnswer, transition,
  transition_found, transition_timed, moved, may_become, mark_failed, resolvable, resolve_recovery,
  Candidate, insert_candidate, unresolved, recovery_candidates, Clocks, Times, startup_reason,
  resolve_again, resolve_after, resolve, resolve_failed, recover_attachment, failures_of,
  recover_each, recover_all,
}

-- What a call for one worker does: the other attachments are as they were, and no recovery is lost.
record Frame (store : Store) (id : String) (next : Store) : Type 0 where
  others : (j : String) → (j == id) ≡ false → lookup j next.attachments ≡ lookup j store.attachments
  kept : (j : String) → lookup j next.recoveries ≡ none → lookup j store.recoveries ≡ none

Frame-refl : (store : Store) (id : String) → Frame store id store
Frame-refl store id = record { others = λ j n. refl; kept = λ j h. h }

Frame-trans : {a b c : Store} {id : String} → Frame a id b → Frame b id c → Frame a id c
Frame-trans p q = record {
  others = λ j n. q.others j n ∙ p.others j n;
  kept = λ j h. p.kept j (q.kept j h);
}

module _ (store : Store) (id : String) where
  if-Frame :
      {R : Type 0} (b : Bool) (x y : Store × R)
      → Frame store id x.0
      → Frame store id y.0
      → Frame store id (if b then x else y).0
  if-Frame true x y p q = p
  if-Frame false x y p q = q

  transition_found-Frame :
      (n : ℕ) (status : AttachmentStatus) (reason : Option Text) (t : ℕ) (found : Option Attachment)
      → Frame store id (transition_found store id n status reason t found).0
  transition_found-Frame n status reason t none = Frame-refl store id
  transition_found-Frame n status reason t (some attachment) =
      if-Frame (attachment.version == n && may_become attachment.status status) _ _
        (record {
          others = λ j d.
              let l = lookup-insert j id (moved status reason t attachment) store.attachments in
              ground arith;
          kept = λ j h. h;
        })
        (Frame-refl store id)

  transition_timed-Frame :
      (n : ℕ) (status : AttachmentStatus) (reason : Option Text) (clock : Option ℕ)
      → Frame store id (transition_timed store id n status reason clock).0
  transition_timed-Frame n status reason none = Frame-refl store id
  transition_timed-Frame n status reason (some t) =
      transition_found-Frame n status reason t (lookup id store.attachments)

  mark_failed-Frame :
      (n : ℕ) (reason : Text) (clock : Option ℕ)
      → Frame store id (mark_failed store id n reason clock).0
  unfolding mark_failed transition
  mark_failed-Frame n reason clock =
      let text = strip_spaces reason in
      if-Frame (length text == 0 || not (leb (length text) 256)) _ _ (Frame-refl store id) (
        if-Frame (not (is_identifier id && leb 1 n)) _ _ (Frame-refl store id)
          (transition_timed-Frame n failed (some text) clock))

-- What a recovery of one attachment answers: where it does not fail, the attachment is resolved.
record Resolves (store : Store) (id : String) (a : ResolveAnswer) : Type 0 where
  frame : Frame store id a.0
  resolved : a.1 ≡ ok tt → lookup id a.0.recoveries ≢ none

failing :
    (store next : Store) (id : String) (e : AttachmentError)
    → Frame store id next
    → Resolves store id (next, err e)
failing store next id e f = record { frame = f; resolved = λ h. absurd (ground arith) }

Resolves-after :
    (store next : Store) (id : String) (a : ResolveAnswer)
    → Frame store id next
    → Resolves next id a
    → Resolves store id a
Resolves-after store next id a f r = record { frame = Frame-trans f r.frame; resolved = r.resolved }

if-Resolves :
    (store : Store) (id : String) (b : Bool) (x y : ResolveAnswer)
    → Resolves store id x
    → Resolves store id y
    → Resolves store id (if b then x else y)
if-Resolves store id true x y p q = p
if-Resolves store id false x y p q = q

module _ (store : Store) (id : String) where
  same_frame : (e : AttachmentError) → Resolves store id (store, err e)
  same_frame e = failing store store id e (Frame-refl store id)

  resolve_recovery-Resolves :
      (n : ℕ) (clock : Option ℕ) → Resolves store id (resolve_recovery store id n clock)
  unfolding resolve_recovery
  resolve_recovery-Resolves n clock =
      if-Resolves store id (not (is_identifier id && leb 1 n)) _ _ (same_frame recovery_invalid) (
        if-Resolves store id (is_none clock) _ _ (same_frame clock_invalid) (
          if-Resolves store id
            (not (resolvable n (lookup id store.attachments) (lookup id store.runtimes))) _ _
            (same_frame recovery_pending)
            (if-Resolves store id (not (is_none (lookup id store.recoveries))) _ _
              (same_frame recovery_conflict)
              (record {
                frame = record {
                  others = λ j d. refl;
                  kept = λ j h. let l = lookup-insert j id n store.recoveries in ground arith;
                };
                resolved = λ _ h. let l = lookup-insert id id n store.recoveries in ground arith;
              }))))

abbrev with_runtimes : Store → Table → Store
with_runtimes store table = record store { runtimes = table }

resolve_again-Resolves :
    (store : Store) (id : String) (n : ℕ) (clock : Option ℕ) (a : RecoveryAnswer)
    → Resolves store id (resolve_again store id n clock a)
resolve_again-Resolves store id n clock (table, err e) =
    failing store (with_runtimes store table) id runtime_recovery
      (record { others = λ j d. refl; kept = λ j h. h })
resolve_again-Resolves store id n clock (table, ok u) =
    Resolves-after store (with_runtimes store table) id _
      (record { others = λ j d. refl; kept = λ j h. h })
      (resolve_recovery-Resolves (with_runtimes store table) id n clock)

resolve_after-Resolves :
    (runtimes : Runtimes) (readings : Readings) (store : Store) (id : String) (n : ℕ)
    (clock : Option ℕ) (a : ResolveAnswer)
    → Resolves store id a
    → Resolves store id (resolve_after runtimes readings id n clock a)
resolve_after-Resolves runtimes readings store id n clock (next, ok u) r = r
resolve_after-Resolves runtimes readings store id n clock (next, err recovery_pending) r =
    Resolves-after store next id _ r.frame (
      resolve_again-Resolves next id n clock
        (terminate_worker runtimes readings next.runtimes id startup_reason))
resolve_after-Resolves runtimes readings store id n clock (next, err denied) r = r
resolve_after-Resolves runtimes readings store id n clock (next, err conflict) r = r
resolve_after-Resolves runtimes readings store id n clock (next, err stale) r = r
resolve_after-Resolves runtimes readings store id n clock (next, err invalid) r = r
resolve_after-Resolves runtimes readings store id n clock (next, err race) r = r
resolve_after-Resolves runtimes readings store id n clock (next, err not_found) r = r
resolve_after-Resolves runtimes readings store id n clock (next, err clock_invalid) r = r
resolve_after-Resolves runtimes readings store id n clock (next, err recovery_invalid) r = r
resolve_after-Resolves runtimes readings store id n clock (next, err recovery_conflict) r = r
resolve_after-Resolves runtimes readings store id n clock (next, err recovery_incomplete) r = r
resolve_after-Resolves runtimes readings store id n clock (next, err runtime_recovery) r = r

resolve-Resolves :
    (runtimes : Runtimes) (readings : Readings) (clocks : Clocks) (store : Store) (id : String)
    (n : ℕ)
    → Resolves store id (resolve runtimes readings clocks store id n)
unfolding resolve
resolve-Resolves runtimes readings clocks store id n =
    resolve_after-Resolves runtimes readings store id n clocks.resolving_again
      (resolve_recovery store id n clocks.resolving)
      (resolve_recovery-Resolves store id n clocks.resolving)

resolve_failed-Resolves :
    (runtimes : Runtimes) (readings : Readings) (clocks : Clocks) (store : Store) (id : String)
    (a : Answer)
    → Frame store id a.0
    → Resolves store id (resolve_failed runtimes readings clocks id a)
resolve_failed-Resolves runtimes readings clocks store id (next, err e) f =
    failing store next id e f
resolve_failed-Resolves runtimes readings clocks store id (next, ok attachment) f =
    Resolves-after store next id _ f
      (resolve-Resolves runtimes readings clocks next id attachment.version)

recover_attachment-Resolves :
    (runtimes : Runtimes) (readings : Readings) (clocks : Clocks) (store : Store) (id : String)
    (attachment : Attachment)
    → Resolves store id (recover_attachment runtimes readings clocks store (id, attachment))
unfolding recover_attachment
recover_attachment-Resolves runtimes readings clocks store id attachment =
    if-Resolves store id (not (leb 1 attachment.version)) _ _ (same_frame store id recovery_invalid)
      (if-Resolves store id (is_failed attachment.status) _ _
        (resolve-Resolves runtimes readings clocks store id attachment.version)
        (resolve_failed-Resolves runtimes readings clocks store id
          (mark_failed store id attachment.version startup_reason clocks.failing)
          (mark_failed-Frame store id attachment.version startup_reason clocks.failing)))

-- A worker is among the candidates.
abbrev Among : String → List Candidate → Type 0
Among j = Any (λ (i, _). (j == i) ≡ true)

-- Every attachment without a recovery is among the candidates.
abbrev Covers : Store → List Candidate → Type 0
Covers store cs =
    (j : String) (a : Attachment)
    → lookup j store.attachments ≡ some a
    → lookup j store.recoveries ≡ none
    → Among j cs

insert_candidate-Among :
    (j : String) (c : Candidate) (cs : List Candidate)
    → ((j == c.0) ≡ true) ⊎ Among j cs
    → Among j (insert_candidate c cs)
unfolding insert_candidate
insert_candidate-Among j (i, a) [] h = h
insert_candidate-Among j (i, a) ((k, other) ∷ cs) h =
    elim (compare i k)
      as (λ o. Among j (elim o as (λ x. List Candidate) [
        | Ordering.gt ↦ (k, other) ∷ insert_candidate (i, a) cs
        | _ ↦ (i, a) ∷ ((k, other) ∷ cs)
      ])) [
        | Ordering.gt ↦ elim h [
          | inl e ↦ inr (insert_candidate-Among j (i, a) cs (inl e))
          | inr (inl e) ↦ inl e
          | inr (inr b) ↦ inr (insert_candidate-Among j (i, a) cs (inr b))
        ]
        | _ ↦ h
      ]

if-Among :
    (j : String) (b : Bool) (cs ds : List Candidate)
    → (b ≡ true → Among j cs)
    → (b ≡ false → Among j ds)
    → Among j (if b then cs else ds)
if-Among j true cs ds f g = f refl
if-Among j false cs ds f g = g refl

unresolved-Covers :
    (recoveries : Dict String ℕ) (attachments : Dict String Attachment) (j : String)
    (a : Attachment)
    → lookup j attachments ≡ some a
    → lookup j recoveries ≡ none
    → Among j (unresolved recoveries attachments)
unfolding unresolved lookup
unresolved-Covers recoveries [] j a h n = absurd (ground arith)
unresolved-Covers recoveries ((i, first) ∷ attachments) j a h n =
    let cs = unresolved recoveries attachments in
    elim (Bool-cases (j == i)) [
      | inl e ↦
          let r = ap (λ k. is_none (lookup k recoveries)) (eq_of_== j i e) in
          let m = ap is_none n in
          if-Among j (is_none (lookup i recoveries)) _ _
            (λ _. insert_candidate-Among j (i, first) cs (inl e))
            (λ b. absurd (let t = sym m ∙ r ∙ b in cc))
      | inr e ↦
          let there = unresolved-Covers recoveries attachments j a (ground arith) n in
          if-Among j (is_none (lookup i recoveries)) _ _
            (λ _. insert_candidate-Among j (i, first) cs (inr there)) (λ _. there)
    ]

failures_of-ok : (r : Result AttachmentError (Unit {0})) → failures_of r ≡ 0 → r ≡ ok tt
failures_of-ok (ok u) h = refl
failures_of-ok (err e) h = absurd (omega arith)

recover_each-resolved :
    (runtimes : Runtimes) (readings : Readings) (times : Times) (store : Store)
    (cs : List Candidate)
    → Covers store cs
    → (recover_each runtimes readings times store cs).1 ≡ 0
    → Covers (recover_each runtimes readings times store cs).0 []
unfolding recover_each
recover_each-resolved runtimes readings times store [] c h = c
recover_each-resolved runtimes readings times store ((i, first) ∷ cs) c h =
    let step = recover_attachment runtimes readings (times i) store (i, first) in
    let r = recover_attachment-Resolves runtimes readings (times i) store i first in
    recover_each-resolved runtimes readings times step.0 cs
      (λ j a found n. elim (Bool-cases (j == i)) [
        | inl q ↦
            let k = ap (λ x. lookup x step.0.recoveries) (sym (eq_of_== j i q)) in
            absurd (r.resolved (failures_of-ok step.1 (omega arith)) (k ∙ n))
        | inr q ↦ elim (c j a (sym (r.frame.others j q) ∙ found) (r.frame.kept j n)) [
          | inl p ↦ absurd (ground arith)
          | inr there ↦ there
        ]
      ])
      (omega arith)

-- Whatever the container runtimes answer, a recovery of all attachments that does not fail leaves
-- every attachment of the table resolved.
pub recover_all-resolved :
    (runtimes : Runtimes) (readings : Readings) (times : Times) (store : Store) (n : ℕ)
    → (recover_all runtimes readings times store).1 ≡ ok n
    → (id : String) (attachment : Attachment)
    → lookup id (recover_all runtimes readings times store).0.attachments ≡ some attachment
    → lookup id (recover_all runtimes readings times store).0.recoveries ≢ none
unfolding recover_all recovery_candidates
recover_all-resolved runtimes readings times store n h id attachment =
    let cs = unresolved store.recoveries store.attachments in
    let last = recover_each runtimes readings times store cs in
    elim (Bool-cases (last.1 == 0)) [
      | inl e ↦ rw e (λ found missing.
          recover_each-resolved runtimes readings times store cs
            (unresolved-Covers store.recoveries store.attachments) (ground arith) id attachment
            found missing)
      | inr e ↦ absurd (ground arith)
    ]

-- An attachment is resolved by a call exactly when it had no recovery, it failed at the version that
-- the call expects, and the worker that has its container is terminated; the call must name a worker
-- and a version, and have a time.
pub resolve_recovery_iff :
    (store : Store) (id : String) (n : ℕ) (clock : Option ℕ)
    → (resolve_recovery store id n clock).1 ≡ ok tt ↔ (
        ((is_identifier id ≡ true) × ((leb 1 n ≡ true) × (clock ≢ none)))
        × ((lookup id store.recoveries ≡ none)
            × ((attachment : Attachment) × ((row : Row) × ((lookup id store.attachments
                      ≡ some attachment)
                    × ((lookup id store.runtimes ≡ some row)
                        × ((attachment.version ≡ n)
                            × ((attachment.status ≡ failed)
                                × ((row.status ≡ terminated)
                                    × (row.container_id ≡ some attachment.container_id))))))))))
unfolding resolve_recovery resolvable
resolve_recovery_iff store id n clock = ground arith
