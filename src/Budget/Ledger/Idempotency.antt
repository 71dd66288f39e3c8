-- ===== src/Budget/Ledger/Idempotency.antt =====
-- A call that is made again.
use pent_ai.Prelude.{
  ℕ, suc, ◌≡◌, ◌≢◌, refl, ap, sym, ◌∙◌, ◌⊎◌, inl, inr, Bool, true, false, not, Option, none, some,
  String, arith, string_eq, if◌then◌else◌, lookup, lookup-insert, Result, ok, err, Bool-cases,
}
use pent_ai.Budget.Ledger.{
  Ledger, Reservation, Request, Platform, State, Outcome, BudgetError, reserved, record_invalid,
  state_conflict, is_reserved, same_state, new_record, admit, admit_checked, answer_known,
  check_request, reserve, reserve_known, check_finalize, finalized, settle, settle_checked,
  finalize, finalize_found,
}

-- The request with another expectation of the ledger's version.
abbrev pub expecting : Request → ℕ → Request
expecting request n = record request { expected_ledger_version = n }

if-elim : {A : Type 0} (P : A → Type 0) (b : Bool) (x y : A) → P x → P y → P (if b then x else y)
if-elim P true x y p q = p
if-elim P false x y p q = q

module _ (platform : Platform) (l : Ledger) (request : Request) (uuid : String)
    (e : BudgetError) where
  -- What a failed call leaves
  abbrev Kept : Ledger × Outcome → Type 0
  Kept (m, o) =
      o ≡ err e → (m ≡ l) ⊎ ((e ≡ record_invalid) × (m ≡ record l { version = suc l.version }))

if-else : {A : Type 0} (b : Bool) (x y : A) → b ≡ true → (if not b then x else y) ≡ y
if-else true x y h = refl
if-else false x y h = cc

unless-elim :
    {A : Type 0} (P : A → Type 0) (b : Bool) (x y : A)
    → (b ≡ false → P x)
    → (b ≡ true → P y)
    → P (if not b then x else y)
unless-elim P true x y p q = q refl
unless-elim P false x y p q = p refl

module _ (platform : Platform) (l : Ledger) (request : Request) (uuid : String) where
  -- The ledger knows the request's key, and answers with `r`.
  abbrev Answers : Ledger → Reservation → Type 0
  Answers m r =
      (known : String × String) × (lookup request.idempotency_key m.idempotency ≡ some known)
      × (answer_known platform m request known ≡ ok r)

  admit-Answers :
      (r : Reservation)
      → (admit platform l request uuid).1 ≡ ok r
      → Answers (admit platform l request uuid).0 r
  unfolding admit answer_known
  admit-Answers r h =
      elim (Bool-cases (platform.record_valid (new_record platform request (suc l.version) uuid))) [
        | inl v ↦
            let key = request.idempotency_key in
            let print = platform.digest request.replay in
            let made = new_record platform request (suc l.version) uuid in
            let k = lookup-insert key key (print, uuid) l.idempotency in
            let m = lookup-insert uuid uuid made l.records in
            ((print, uuid), ground arith, ground arith)
        | inr v ↦ absurd (ground arith)
      ]

  admit_checked-Answers :
      (r : Reservation) (c : Result BudgetError (Unit {0}))
      → (admit_checked platform l request uuid c).1 ≡ ok r
      → Answers (admit_checked platform l request uuid c).0 r
  admit_checked-Answers r (ok u) h = admit-Answers r h
  admit_checked-Answers r (err x) h = cc

  reserve_known-Answers :
      (r : Reservation) (clock : Option ℕ) (known : Option (String × String))
      → lookup request.idempotency_key l.idempotency ≡ known
      → (reserve_known platform l request clock uuid known).1 ≡ ok r
      → Answers (reserve_known platform l request clock uuid known).0 r
  reserve_known-Answers r clock none e h = admit_checked-Answers r (check_request l request clock) h
  reserve_known-Answers r clock (some known) e h = (known, e, h)

  reserve-Answers :
      (r : Reservation) (clock : Option ℕ)
      → (reserve platform l request clock uuid).1 ≡ ok r
      → (request.well_formed ≡ true) × Answers (reserve platform l request clock uuid).0 r
  unfolding reserve
  reserve-Answers r clock =
      unless-elim (λ (m, o). o ≡ ok r → (request.well_formed ≡ true) × Answers m r)
        request.well_formed _ _ (λ _ h. absurd (cc))
        (λ w h.
          (w, reserve_known-Answers r clock (lookup request.idempotency_key l.idempotency) refl h))

Answers-reserve :
    (platform : Platform) (m : Ledger) (request : Request) (uuid : String) (r : Reservation)
    (clock : Option ℕ) (n : ℕ)
    → request.well_formed ≡ true
    → Answers platform m request uuid m r
    → reserve platform m (expecting request n) clock uuid ≡ (m, ok r)
unfolding reserve answer_known
Answers-reserve platform m request uuid r clock n w (known, e, a) =
    if-else request.well_formed _ _ w
    ∙ ap (reserve_known platform m (expecting request n) clock uuid) e
    ∙ ap (λ o. (m, o)) a

-- A request that was granted is answered with the same record when it is made again, at any time
-- and whatever version it expects, and the ledger stays as it is.
pub reserve_again :
    (platform : Platform) (l : Ledger) (request : Request) (clock clock' : Option ℕ)
    (uuid uuid' : String) (n : ℕ) (r : Reservation)
    → let m = (reserve platform l request clock uuid).0 in
      (reserve platform l request clock uuid).1 ≡ ok r
      → reserve platform m (expecting request n) clock' uuid' ≡ (m, ok r)
reserve_again platform l request clock clock' uuid uuid' n r h =
    let (w, a) = reserve-Answers platform l request uuid r clock h in
    Answers-reserve platform _ request uuid' r clock' n w a

same_state_correct : (s t : State) → same_state s t ≡ true → s ≡ t
same_state_correct s t h = ground arith

-- The answer to a call on a record that is settled
finalize_found-settled :
    (m : Ledger) (id : String) (n : ℕ) (other : State) (clock : Option ℕ) (r : Reservation)
    → r.state ≢ reserved
    → other ≢ reserved
    → finalize_found m id n other clock (some r)
      ≡ (m, if same_state other r.state then ok r else err state_conflict)
finalize_found-settled m id n other clock r s o = ground arith

module _ (l : Ledger) (id : String) (target : State) where
  -- A call that answers with a record leaves it in its place, in the state that it asks for.
  abbrev Settles : Ledger × Outcome → Type 0
  Settles (m, o) =
      (r : Reservation) → o ≡ ok r → (r.state ≡ target) × (lookup id m.records ≡ some r)

  settle_checked-Settles :
      (reservation : Reservation) (c : Result BudgetError ℕ)
      → Settles (settle_checked l id reservation target c)
  unfolding settle finalized
  settle_checked-Settles reservation (ok now) r h =
      let updated = finalized reservation (suc l.version) target now in
      let e = lookup-insert id id updated l.records in ground arith
  settle_checked-Settles reservation (err x) r h = cc

  finalize_found-Settles :
      (n : ℕ) (clock : Option ℕ) (found : Option Reservation)
      → lookup id l.records ≡ found
      → Settles (finalize_found l id n target clock found)
  finalize_found-Settles n clock none e r h = cc
  finalize_found-Settles n clock (some reservation) e r h =
      let p : Settles (finalize_found l id n target clock (some reservation)) =
        elim (Bool-cases (same_state reservation.state target)) [
          | inl s ↦
              rw s (λ r h. let t = same_state_correct reservation.state target s in ground arith)
          | inr s ↦ rw s (
              if-elim Settles (not (is_reserved reservation.state)) _ _ (λ r h. cc)
                (settle_checked-Settles reservation (check_finalize l reservation n target clock)))
        ] in
      p r h

-- A reservation is finalized once: the same call again answers with the same record, the other
-- call is a conflict, and neither changes the ledger.
pub finalize_again :
    (l : Ledger) (id : String) (expected n : ℕ) (target : State) (clock clock' : Option ℕ)
    (r : Reservation)
    → target ≢ reserved
    → let m = (finalize l id expected target clock).0 in
      (finalize l id expected target clock).1 ≡ ok r
      → (other : State) → other ≢ reserved
      → finalize m id n other clock'
        ≡ (m, if same_state other target then ok r else err state_conflict)
unfolding finalize
finalize_again l id expected n target clock clock' r t h other o =
    let (s, e) = finalize_found-Settles l id target expected clock _ refl r h in
    let settled = λ (q : r.state ≡ reserved). t (sym s ∙ q) in
    let m = (finalize l id expected target clock).0 in
    ap (finalize_found m id n other clock') e
    ∙ finalize_found-settled m id n other clock' r settled o
    ∙ ap (λ st. (m, if same_state other st then ok r else err state_conflict)) s
