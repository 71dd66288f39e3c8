-- ===== src/Workers/Termination/Stuck.antt =====
-- A worker that no recovery ends.
use pent_ai.Prelude.{
  ℕ, ◌≡◌, refl, inl, inr, true, false, Option, none, some, String, Text, arith, string_eq, leb,
  lookup, Result, ok, err, >>=-eq-ok, guard, Bool-cases,
}
use pent_ai.Workers.Names.{strip_spaces}
use pent_ai.Workers.Registry.Schema.{
  RegistryError, failed, Row, Table, runtime_race, termination_invalid,
}
use pent_ai.Workers.Registry.{
  request_termination, request_attempt, request_valid, can_discover, discover_row, timestamp,
  updated,
}
use pent_ai.Workers.Registry.Races.{update_row-kept}
use pent_ai.Workers.Termination.{
  RecoveryError, registry, recovery_invalid, Controller, Runtimes, find_container,
  recover_candidate,
}

can_discover-failed : (n : ℕ) (row : Row) → row.status ≡ failed → can_discover n row ≡ false
unfolding can_discover
can_discover-failed n row h = ground arith

module _ (T : Table) (id : String) (row : Row) where
  attempt-refused :
      (n : ℕ) (reason : Text) (c : String) (clock : Option ℕ) (o : Option Table)
      → lookup id T ≡ some row
      → row.status ≡ failed
      → request_attempt T id n reason (some c) clock ≡ ok o
      → o ≡ none
  unfolding request_attempt
  attempt-refused n reason c clock o found f h =
      let (_, _, h₁) =
        >>=-eq-ok (guard (request_valid id n reason (some c)) termination_invalid) _ h in
      let (t, _, h₂) = >>=-eq-ok (timestamp clock) _ h₁ in
      let k =
        update_row-kept T id (can_discover n) (discover_row c reason t) true row found
          (can_discover-failed n row f) in
      ground arith

  updated-none :
      (r : Result RegistryError (Option Table))
      → ((o : Option Table) → r ≡ ok o → o ≡ none)
      → (e : RegistryError) × (updated T id runtime_race r ≡ (T, err e))
  updated-none (err e) h = (e, refl)
  updated-none (ok none) h = (runtime_race, refl)
  updated-none (ok (some next)) h = absurd (let q = h (some next) refl in ground arith)

  request-refused :
      (n : ℕ) (reason : Text) (c : String) (clock : Option ℕ)
      → lookup id T ≡ some row
      → row.status ≡ failed
      → (e : RegistryError) × (request_termination T id n reason (some c) clock ≡ (T, err e))
  unfolding request_termination
  request-refused n reason c clock found f =
      updated-none (request_attempt T id n (strip_spaces reason) (some c) clock)
        (λ o h. attempt-refused n (strip_spaces reason) c clock o found f h)

  -- A worker that failed before its container was recorded is never ended while the runtime still
  -- has a container of it: every attempt fails and leaves the table as it is.
  pub recover_candidate-stuck :
      (runtimes : Runtimes) (controller : Controller) (reason : Text) (c : String)
      (clock clock' : Option ℕ)
      → lookup id T ≡ some row
      → row.status ≡ failed
      → row.container_id ≡ none
      → runtimes row.oci_runtime ≡ some controller
      → controller.discover_owned id ≡ some (some c)
      → (e : RecoveryError) × (recover_candidate runtimes T (id, row) reason (clock, clock')
          ≡ (T, err e))
  unfolding recover_candidate find_container
  recover_candidate-stuck runtimes controller reason c clock clock' found f none_yet runtime
        discovers =
      let (e, q) = request-refused row.version reason c clock found f in
      elim (Bool-cases (leb 1 row.version)) [
        | inl v ↦ (registry e, ground arith)
        | inr v ↦ (recovery_invalid, ground arith)
      ]
