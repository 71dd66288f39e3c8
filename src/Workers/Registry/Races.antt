-- ===== src/Workers/Registry/Races.antt =====
-- The version fence of `request_termination` and `finalize_termination`.
use pent_ai.Prelude.{
  ℕ, suc, ◌<◌, ◌≡◌, ◌≢◌, refl, sym, ap, ◌∙◌, inl, inr, Bool, true, false, ◌&&◌, Option, none, some,
  String, Text, arith, string_eq, leb, lookup, insert, lookup-insert, ==-refl, Result, ok, err,
  >>=-eq-ok, guard, Bool-cases,
}
use pent_ai.Workers.Names.{is_identifier, strip_spaces}
use pent_ai.Workers.Registry.Schema.{
  RegistryError, termination_requested, Row, Table, update_row, update_found, runtime_race,
  termination_invalid,
}
use pent_ai.Workers.Registry.{
  request_termination, finalize_termination, updated, document, request_attempt, finalize_attempt,
  request_update, can_request, can_discover, can_finalize, request_row, discover_row, final_row,
  request_valid, timestamp,
}
use pent_ai.Workers.Registry.History.{Reach, Reach-Follows}

-- A statement that changed a row
pub record Updated (T : Table) (id : String) (condition : Row → Bool) (change : Row → Row)
    (U : Table) : Type 0 where
  pub old : Row
  pub found : lookup id T ≡ some old
  pub selected : condition old ≡ true
  pub written : U ≡ insert id (change old) T

module _ (T : Table) (id : String) where
  update_found-Updated :
      (condition : Row → Bool) (change : Row → Row) (sets : Bool) (found : Option Row)
      (next : Table)
      → lookup id T ≡ found
      → update_found T id condition change sets found ≡ ok (some next)
      → Updated T id condition change next
  update_found-Updated condition change sets none next e h = absurd (ground arith)
  update_found-Updated condition change sets (some row) next e h =
      elim (Bool-cases (condition row)) [
        | inl c ↦ record { old = row; found = e; selected = c; written = ground arith }
        | inr c ↦ absurd (ground arith)
      ]

  pub update_row-Updated :
      (condition : Row → Bool) (change : Row → Row) (sets : Bool) (next : Table)
      → update_row T id condition change sets ≡ ok (some next)
      → Updated T id condition change next
  unfolding update_row
  update_row-Updated condition change sets next h =
      update_found-Updated condition change sets (lookup id T) next refl h

  -- A call that answers with a row has changed the table, which has that row.
  pub updated-ok :
      (missing : RegistryError) (r : Result RegistryError (Option Table)) (row : Row)
      → (updated T id missing r).1 ≡ ok row
      → (next : Table) × ((r ≡ ok (some next))
          × (((updated T id missing r).0 ≡ next) × (lookup id next ≡ some row)))
  unfolding document
  updated-ok missing (err e) row h = absurd (ground arith)
  updated-ok missing (ok none) row h = absurd (ground arith)
  updated-ok missing (ok (some next)) row h = (next, (refl, (refl, ground arith)))

  -- A statement whose condition fails on the worker's row changes nothing.
  pub update_row-kept :
      (condition : Row → Bool) (change : Row → Row) (sets : Bool) (row : Row)
      → lookup id T ≡ some row
      → condition row ≡ false
      → update_row T id condition change sets ≡ ok none
  unfolding update_row
  update_row-kept condition change sets row e c =
      ap (update_found T id condition change sets) e ∙ ground arith

  updated-kept :
      (missing : RegistryError) (r : Result RegistryError (Option Table))
      → ((next : Table) → r ≢ ok (some next))
      → (updated T id missing r).0 ≡ T
  updated-kept missing (err e) h = refl
  updated-kept missing (ok none) h = refl
  updated-kept missing (ok (some next)) h = absurd (h next refl)

  -- What a statement of `request_termination` that changes a row has found and writes.
  request_update-Updated :
      (n : ℕ) (reason : Text) (t : ℕ) (discovered : Option String) (next : Table)
      → request_update T id n reason t discovered ≡ ok (some next)
      → (old row : Row) × ((lookup id T ≡ some old)
          × ((old.version ≡ n)
              × ((next ≡ insert id row T)
                  × ((row.version ≡ suc n) × (row.status ≡ termination_requested)))))
  unfolding can_request can_discover request_row discover_row
  request_update-Updated n reason t none next h =
      let u = update_row-Updated (can_request n) (request_row reason t) false next h in
      let s = u.selected in
      (
        u.old,
        request_row reason t u.old,
        (u.found, (ground arith, (u.written, (ground arith, refl)))),
      )
  request_update-Updated n reason t (some c) next h =
      let u = update_row-Updated (can_discover n) (discover_row c reason t) true next h in
      let s = u.selected in
      (
        u.old,
        discover_row c reason t u.old,
        (u.found, (ground arith, (u.written, (ground arith, refl)))),
      )

  request_attempt-Updated :
      (n : ℕ) (reason : Text) (discovered : Option String) (clock : Option ℕ) (next : Table)
      → request_attempt T id n reason discovered clock ≡ ok (some next)
      → (old row : Row) × ((lookup id T ≡ some old)
          × ((old.version ≡ n)
              × ((next ≡ insert id row T)
                  × ((row.version ≡ suc n) × (row.status ≡ termination_requested)))))
  unfolding request_attempt
  request_attempt-Updated n reason discovered clock next h =
      let (_, _, h₁) =
        >>=-eq-ok (guard (request_valid id n reason discovered) termination_invalid) _ h in
      let (t, _, h₂) = >>=-eq-ok (timestamp clock) _ h₁ in
      request_update-Updated n reason t discovered next h₂

  pub finalize_attempt-Updated :
      (n : ℕ) (succeeded : Bool) (clock : Option ℕ) (next : Table)
      → finalize_attempt T id n succeeded clock ≡ ok (some next)
      → (t : ℕ) × Updated T id (can_finalize n) (final_row succeeded t) next
  unfolding finalize_attempt
  finalize_attempt-Updated n succeeded clock next h =
      let (_, _, h₁) = >>=-eq-ok (guard (is_identifier id && leb 1 n) termination_invalid) _ h in
      let (t, _, h₂) = >>=-eq-ok (timestamp clock) _ h₁ in
      (t, update_row-Updated (can_finalize n) (final_row succeeded t) false next h₂)

  -- A granted request leaves the worker's row at the next version, and termination requested.
  pub request_termination-ok :
      (n : ℕ) (reason : Text) (discovered : Option String) (clock : Option ℕ) (row : Row)
      → (request_termination T id n reason discovered clock).1 ≡ ok row
      → (lookup id (request_termination T id n reason discovered clock).0 ≡ some row)
        × ((row.version ≡ suc n) × (row.status ≡ termination_requested))
  unfolding request_termination
  request_termination-ok n reason discovered clock row h =
      let r = request_attempt T id n (strip_spaces reason) discovered clock in
      let (next, (e, (s, found))) = updated-ok runtime_race r row h in
      let (old, new, (f, (v, (w, (nv, ns))))) =
        request_attempt-Updated n (strip_spaces reason) discovered clock next e in
      let l = lookup-insert id id new T in
      let i = ==-refl id in
      let same : new ≡ row = ground arith in
      (
        ap (lookup id) s ∙ found,
        (sym (ap (λ (x : Row). x.version) same) ∙ nv, sym (ap (λ (x : Row). x.status) same) ∙ ns),
      )

  -- A worker whose version is past the expected one is left alone.
  request_termination-stale :
      (n : ℕ) (reason : Text) (discovered : Option String) (clock : Option ℕ) (row : Row)
      → lookup id T ≡ some row
      → n < row.version
      → (request_termination T id n reason discovered clock).0 ≡ T
  unfolding request_termination
  request_termination-stale n reason discovered clock row found later =
      updated-kept runtime_race (request_attempt T id n (strip_spaces reason) discovered clock)
        (λ next h.
          let (old, new, (f, (v, _))) =
            request_attempt-Updated n (strip_spaces reason) discovered clock next h in
          let same : old ≡ row = ground arith in
          let w = ap (λ (x : Row). x.version) same in omega arith)

  finalize_termination-stale :
      (n : ℕ) (succeeded : Bool) (clock : Option ℕ) (row : Row)
      → lookup id T ≡ some row
      → n < row.version
      → (finalize_termination T id n succeeded clock).0 ≡ T
  unfolding finalize_termination can_finalize
  finalize_termination-stale n succeeded clock row found later =
      updated-kept runtime_race (finalize_attempt T id n succeeded clock) (λ next h.
        let (t, u) = finalize_attempt-Updated n succeeded clock next h in
        let f = u.found in
        let s = u.selected in
        let same : u.old ≡ row = ground arith in
        let w = ap (λ (x : Row). x.version) same in
        let v : u.old.version ≡ n = ground arith in omega arith)

-- Once a request for termination is granted at a version, no call that expects this version changes
-- the table any more, whatever calls come in between.
pub request_termination-once :
    (T U : Table) (id : String) (n : ℕ) (reason reason' : Text)
    (discovered discovered' : Option String) (clock clock' : Option ℕ) (succeeded : Bool)
    (row : Row)
    → (request_termination T id n reason discovered clock).1 ≡ ok row
    → Reach (request_termination T id n reason discovered clock).0 U
    → ((request_termination U id n reason' discovered' clock').0 ≡ U)
      × ((finalize_termination U id n succeeded clock').0 ≡ U)
request_termination-once T U id n reason reason' discovered discovered' clock clock' succeeded row h
      reached =
    let (found, (v, _)) = request_termination-ok T id n reason discovered clock row h in
    let (last, (there, f)) = Reach-Follows id row reached found in
    let w = f.version in
    (
      request_termination-stale U id n reason' discovered' clock' last there (omega arith),
      finalize_termination-stale U id n succeeded clock' last there (omega arith),
    )
