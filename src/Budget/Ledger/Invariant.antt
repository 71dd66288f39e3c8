-- ===== src/Budget/Ledger/Invariant.antt =====
-- What holds of a ledger between two calls.
use pent_ai.Prelude.{
  ℕ, suc, ◌+◌, ◌-◌, ◌≤◌, ◌≡◌, ◌≢◌, refl, subst, inl, inr, Bool, true, false, not, Option, none,
  some, String, arith, ◌==◌, string_eq, nat_eq, if◌then◌else◌, ltb, Dict, lookup, insert, All,
  All-map, Bool-cases, Result, ok, err, >>=-eq-ok, ok-injective, guard, or_fail,
}
use pent_ai.Budget.Provider.{
  Field, Amounts, some_field, Configuration, ProviderPolicy, validate_provider_configuration,
}
use pent_ai.Budget.Provider
use pent_ai.Budget.Ledger.{
  Ledger, Reservation, Request, Platform, State, reserved, committed, released, is_reserved,
  is_released, same_state, BudgetError, create, check_request, new_record, admit, reserve, settle,
  finalized, finalize, from_provider, reserve_known, finalize_found, clock_invalid, version_stale,
  validate_current_authority, check_request_times, check_amounts, exceeds, admit_checked,
  settle_checked, Outcome,
}
use pent_ai.Budget.Ledger.Accounts.{
  held, total, total-insert_new, total-insert_old, Every, Every-insert, held-le-total, All-insert,
  known-insert, lookup-insert_self,
}

pub record IsSound (l : Ledger) : Type 0 where
  -- what is used is what the reservations hold,
  pub accounted : (field : Field) → l.used field ≡ total l.records field
  -- within the budget;
  pub within : (field : Field) → l.used field ≤ l.configuration.budgets field
  -- no record is newer than the ledger;
  pub dated : Every (λ r. r.ledger_version ≤ l.version) l.records
  -- and every idempotency key leads to a record.
  pub known : All (λ (_, (_, id)). lookup id l.records ≢ none) l.idempotency

pub some_field-false :
    (test : Field → Bool) → some_field test ≡ false → (field : Field) → test field ≡ false
some_field-false test h Provider.input_tokens = ground arith
some_field-false test h Provider.output_tokens = ground arith
some_field-false test h Provider.requests = ground arith
some_field-false test h Provider.cost_microusd = ground arith
some_field-false test h Provider.runtime_seconds = ground arith

pub create-IsSound :
    (configuration : Configuration) (policy : ProviderPolicy) (clock : Option ℕ) (l : Ledger)
    → create configuration policy clock ≡ ok l
    → IsSound l
unfolding create total
create-IsSound configuration policy clock l h =
    let (now, _, h₁) = >>=-eq-ok (or_fail clock clock_invalid) _ h in
    let (_, _, h₂) =
      >>=-eq-ok (from_provider (validate_provider_configuration configuration policy now)) _ h₁ in
    subst IsSound (ok-injective h₂)
      (record { accounted = λ f. refl; within = λ f. omega arith; dated = tt; known = tt })

-- Amounts that do not exceed the budgets fit in them.
pub exceeds-false :
    (used amounts budgets : Amounts)
    → exceeds used amounts budgets ≡ false
    → (field : Field) → used field + amounts field ≤ budgets field
unfolding exceeds
exceeds-false used amounts budgets h field =
    let e : ltb (budgets field) (used field + amounts field) ≡ false =
      some_field-false (λ f. ltb (budgets f) (used f + amounts f)) h field in
    ground arith

check_amounts-fits :
    (l : Ledger) (request : Request)
    → check_amounts l request ≡ ok tt
    → exceeds l.used request.amounts l.configuration.budgets ≡ false
unfolding check_amounts
check_amounts-fits l request h = ground arith

-- A request that passes its checks fits the budget that is left.
check_request-fits :
    (l : Ledger) (request : Request) (clock : Option ℕ)
    → check_request l request clock ≡ ok tt
    → (field : Field) → l.used field + request.amounts field ≤ l.configuration.budgets field
unfolding check_request
check_request-fits l request clock h =
    let (now, _, h₁) = >>=-eq-ok (or_fail clock clock_invalid) _ h in
    let (_, _, h₂) = >>=-eq-ok (validate_current_authority l request now) _ h₁ in
    let (_, _, h₃) =
      >>=-eq-ok (guard (request.expected_ledger_version == l.version) version_stale) _ h₂ in
    let (_, _, h₄) = >>=-eq-ok (check_request_times l request now) _ h₃ in
    exceeds-false l.used request.amounts l.configuration.budgets (check_amounts-fits l request h₄)

Every-newer :
    (n : ℕ) (records : Dict String Reservation)
    → Every (λ r. r.ledger_version ≤ n) records
    → Every (λ r. r.ledger_version ≤ suc n) records
Every-newer n records = All-map records (λ (_, r) h. omega arith)

if-IsSound :
    (b : Bool) (x y : Ledger × Outcome) → IsSound x.0 → IsSound y.0 → IsSound (if b then x else y).0
if-IsSound true x y p q = p
if-IsSound false x y p q = q

module _ (platform : Platform) (l : Ledger) (request : Request) (uuid : String) where
  abbrev record_of : Reservation
  record_of = new_record platform request (suc l.version) uuid

  held-new : (field : Field) → held record_of field ≡ request.amounts field
  unfolding new_record
  held-new field = refl

  dated-new : record_of.ledger_version ≤ suc l.version
  unfolding new_record
  dated-new = omega arith

  -- A new reservation that fits keeps the ledger sound, whether the schema takes it or not.
  admit-IsSound :
      lookup uuid l.records ≡ none
      → ((field : Field) → l.used field + request.amounts field ≤ l.configuration.budgets field)
      → IsSound l
      → IsSound (admit platform l request uuid).0
  unfolding admit
  admit-IsSound fresh fits s = elim (Bool-cases (platform.record_valid record_of)) [
    | inl e ↦ rw e (record {
      accounted = λ f.
          let a = s.accounted f in
          let h = held-new f in
          let t = total-insert_new uuid record_of l.records f fresh in omega arith;
      within = fits;
      dated =
          Every-insert (λ r. r.ledger_version ≤ suc l.version) uuid record_of l.records dated-new
            (Every-newer l.version l.records s.dated);
      known =
          All-insert (λ (_, (_, id)). lookup id (insert uuid record_of l.records) ≢ none)
            request.idempotency_key (platform.digest request.replay, uuid) l.idempotency
            (lookup-insert_self uuid record_of l.records)
            (known-insert uuid record_of l.records l.idempotency s.known);
    })
    | inr e ↦ rw e (record {
      accounted = s.accounted;
      within = s.within;
      dated = Every-newer l.version l.records s.dated;
      known = s.known;
    })
  ]

  admit_checked-IsSound :
      (clock : Option ℕ) (c : Result BudgetError (Unit {0}))
      → check_request l request clock ≡ c
      → lookup uuid l.records ≡ none
      → IsSound l
      → IsSound (admit_checked platform l request uuid c).0
  admit_checked-IsSound clock (ok u) e fresh s =
      admit-IsSound fresh (check_request-fits l request clock e) s
  admit_checked-IsSound clock (err x) e fresh s = s

  reserve_known-IsSound :
      (clock : Option ℕ) (known : Option (String × String))
      → lookup uuid l.records ≡ none
      → IsSound l
      → IsSound (reserve_known platform l request clock uuid known).0
  reserve_known-IsSound clock none fresh s = admit_checked-IsSound clock _ refl fresh s
  reserve_known-IsSound clock (some known) fresh s = s

  -- A call of `reserve` with a fresh UUID keeps the ledger sound, whatever it answers.
  pub reserve-IsSound :
      (clock : Option ℕ)
      → lookup uuid l.records ≡ none
      → IsSound l
      → IsSound (reserve platform l request clock uuid).0
  unfolding reserve
  reserve-IsSound clock fresh s =
      if-IsSound (not request.well_formed) _ _ s (reserve_known-IsSound clock _ fresh s)

-- What a settled record holds, against what it held while it was reserved.
settled-held :
    (r : Reservation) (version now : ℕ) (target : State) (used : ℕ) (field : Field)
    → r.state ≡ reserved
    → held r field ≤ used
    → (if is_released target then used - r.amounts field else used) + held r field
      ≡ used + held (finalized r version target now) field
unfolding finalized
settled-held r version now target used field e h = ground arith

finalized-version :
    (r : Reservation) (version now : ℕ) (target : State)
    → (finalized r version target now).ledger_version ≡ version
unfolding finalized
finalized-version r version now target = refl

settle-IsSound :
    (l : Ledger) (id : String) (r : Reservation) (target : State) (now : ℕ)
    → lookup id l.records ≡ some r
    → r.state ≡ reserved
    → IsSound l
    → IsSound (settle l id r target now).0
unfolding settle
settle-IsSound l id r target now found e s = record {
  accounted = λ f.
      let a = s.accounted f in
      let h = held-le-total id r l.records f found in
      let p = settled-held r (suc l.version) now target (l.used f) f e (omega arith) in
      let t = total-insert_old id (finalized r (suc l.version) target now) r l.records f found in
      omega arith;
  within = λ f. let w = s.within f in ground arith;
  dated =
      Every-insert (λ r. r.ledger_version ≤ suc l.version) id _ l.records
        (let v = finalized-version r (suc l.version) now target in omega arith)
        (Every-newer l.version l.records s.dated);
  known = known-insert id _ l.records l.idempotency s.known;
}

settle_checked-IsSound :
    (l : Ledger) (id : String) (r : Reservation) (target : State) (c : Result BudgetError ℕ)
    → lookup id l.records ≡ some r
    → r.state ≡ reserved
    → IsSound l
    → IsSound (settle_checked l id r target c).0
settle_checked-IsSound l id r target (ok now) found e s = settle-IsSound l id r target now found e s
settle_checked-IsSound l id r target (err x) found e s = s

reserved_of : (state : State) → is_reserved state ≡ true → state ≡ reserved
reserved_of reserved h = refl
reserved_of committed h = cc
reserved_of released h = cc

finalize_found-IsSound :
    (l : Ledger) (id : String) (expected : ℕ) (target : State) (clock : Option ℕ)
    (found : Option Reservation)
    → lookup id l.records ≡ found
    → IsSound l
    → IsSound (finalize_found l id expected target clock found).0
finalize_found-IsSound l id expected target clock none e s = s
finalize_found-IsSound l id expected target clock (some r) e s =
    if-IsSound (same_state r.state target) _ _ s (elim (Bool-cases (is_reserved r.state)) [
      | inl h ↦
          if-IsSound (not (is_reserved r.state)) _ _ s
            (settle_checked-IsSound l id r target _ e (reserved_of r.state h) s)
      | inr h ↦ rw h s
    ])

-- A call of `commit` or of `release` keeps the ledger sound, whatever it answers.
pub finalize-IsSound :
    (l : Ledger) (id : String) (expected : ℕ) (target : State) (clock : Option ℕ)
    → IsSound l
    → IsSound (finalize l id expected target clock).0
unfolding finalize
finalize-IsSound l id expected target clock s =
    finalize_found-IsSound l id expected target clock _ refl s
