-- ===== src/Workers/Registry/Frames.antt =====
-- What one call does to the table: nothing, a new row, or one step of one row.
use pent_ai.Prelude.{
  ℕ, suc, ◌≡◌, ◌≢◌, refl, ap, ◌⊎◌, inl, inr, Bool, true, false, not, ◌&&◌, Option, none, some,
  String, Text, arith, ◌==◌, string_eq, leb, lookup, insert, Result, ok, err, >>=-eq-ok,
  ok-injective, guard, or_fail, Bool-cases,
}
use pent_ai.Workers.Containment.{Attestation, validate_containment_attestation}
use pent_ai.Workers.Registry.Schema.{
  RegistryError, Status, launching, running, terminated, Row, Table, insert_row, update_row,
  update_found, triggers_pass, transition_allowed, conflicting, is_none, row_valid, Mode, deferred,
  podman_direct, registration_denied, registration_conflict, runtime_inactive, runtime_invalid,
  runtime_conflict, runtime_race, termination_invalid,
}
use pent_ai.Workers.Names.{is_identifier, is_container_id, strip_spaces}
use pent_ai.Workers.Registry.{
  register_launch_intent, register_direct_attachment_intent, mark_running, request_termination,
  finalize_termination, updated, inserted, launch_inserted, direct_inserted, new_row, run_row,
  can_run, request_row, can_request, discover_row, can_discover, request_update, final_row,
  can_finalize, integrity_as, denied, run_attempt, request_attempt, finalize_attempt,
  evidence_valid, timestamp, request_valid,
}

-- The columns that `worker_runtime_identity_immutable` and
-- `worker_runtime_direct_attachment_immutable` protect are the same.
pub record SameIdentity (old new : Row) : Type 0 where
  pub attestation : new.containment_attestation_id ≡ old.containment_attestation_id
  pub runtime : new.oci_runtime ≡ old.oci_runtime
  pub instance_id : new.runtime_instance_id ≡ old.runtime_instance_id
  pub network : new.worker_gateway_network_id ≡ old.worker_gateway_network_id
  pub image : new.image_digest ≡ old.image_digest
  pub created : new.created_at ≡ old.created_at
  pub execution : new.execution_enabled ≡ old.execution_enabled
  pub gateway : new.gateway_container_id ≡ old.gateway_container_id
  pub mode : new.attachment_mode ≡ old.attachment_mode

-- What a statement must respect for the rows that its condition selects.
pub record Respects (old new : Row) : Type 0 where
  pub live : old.status ≢ terminated
  pub identity : SameIdentity old new
  pub container : (old.container_id ≡ none) ⊎ (new.container_id ≡ old.container_id)
  pub running_named : new.status ≡ running → new.container_id ≢ none

pub record IsNext (old new : Row) : Type 0 where
  pub respects : Respects old new
  pub version : new.version ≡ suc old.version
  pub allowed : transition_allowed old.status new.status ≡ true

pub record IsNew (row : Row) : Type 0 where
  pub status : row.status ≡ launching
  pub container : row.container_id ≡ none
  pub execution : row.execution_enabled ≡ false

pub data Change (id : String) (T U : Table) : Type 0 where
  same : U ≡ T → Change id T U
  new :
      (row : Row)
      → lookup id T ≡ none
      → conflicting id row T ≡ false
      → IsNew row
      → U ≡ insert id row T
      → Change id T U
  moved :
      (old row : Row)
      → lookup id T ≡ some old
      → conflicting id row T ≡ false
      → IsNext old row
      → U ≡ insert id row T
      → Change id T U

module _ (T : Table) (id : String) where
  updated-Change :
      (missing : RegistryError) (r : Result RegistryError (Option Table))
      → ((next : Table) → r ≡ ok (some next) → Change id T next)
      → Change id T (updated T id missing r).0
  updated-Change missing (err e) h = same refl
  updated-Change missing (ok none) h = same refl
  updated-Change missing (ok (some next)) h = h next refl

  inserted-Change :
      (r : Result RegistryError Table)
      → ((next : Table) → r ≡ ok next → Change id T next)
      → Change id T (inserted T id r).0
  inserted-Change (err e) h = same refl
  inserted-Change (ok next) h = h next refl

  insert_row-Change :
      (row : Row) (next : Table) → IsNew row → insert_row T id row ≡ some next → Change id T next
  unfolding insert_row
  insert_row-Change row next n h =
      elim (Bool-cases (is_none (lookup id T) && (row_valid row && not (conflicting id row T)))) [
        | inl e ↦ new row (ground arith) (ground arith) n (ground arith)
        | inr e ↦ absurd (ground arith)
      ]

  update_found-Change :
      (condition : Row → Bool) (change : Row → Row) (sets_container : Bool) (found : Option Row)
      (next : Table)
      → lookup id T ≡ found
      → ((row : Row) → condition row ≡ true → Respects row (change row))
      → update_found T id condition change sets_container found ≡ ok (some next)
      → Change id T next
  unfolding triggers_pass
  update_found-Change condition change sets_container none next e r h = absurd (ground arith)
  update_found-Change condition change sets_container (some row) next e r h =
      elim (Bool-cases (condition row)) [
        | inl c ↦
            let p : triggers_pass row (change row) sets_container ≡ true = ground arith in
            moved row (change row) e (ground arith)
              (record { respects = r row c; version = ground arith; allowed = ground arith })
              (ground arith)
        | inr c ↦ absurd (ground arith)
      ]

  update_row-Change :
      (condition : Row → Bool) (change : Row → Row) (sets_container : Bool) (next : Table)
      → ((row : Row) → condition row ≡ true → Respects row (change row))
      → update_row T id condition change sets_container ≡ ok (some next)
      → Change id T next
  unfolding update_row
  update_row-Change condition change sets_container next r h =
      update_found-Change condition change sets_container (lookup id T) next refl r h

kept :
    (row : Row) (c : Option String) (status : Status) (t : ℕ) (reason : Option Text) (n : ℕ)
    → SameIdentity row (record row {
      container_id = c;
      status = status;
      updated_at = t;
      termination_reason = reason;
      version = n;
    })
kept row c status t reason n = record {
  attestation = refl;
  runtime = refl;
  instance_id = refl;
  network = refl;
  image = refl;
  created = refl;
  execution = refl;
  gateway = refl;
  mode = refl;
}

run-Respects :
    (container_id : String) (t : ℕ) (row : Row)
    → can_run row ≡ true
    → Respects row (run_row container_id t row)
unfolding can_run run_row
run-Respects container_id t row h = record {
  live = λ e. ground arith;
  identity = kept row _ _ _ _ _;
  container = inl (ground arith);
  running_named = λ e q. cc;
}

request-Respects :
    (n : ℕ) (reason : Text) (t : ℕ) (row : Row)
    → can_request n row ≡ true
    → Respects row (request_row reason t row)
unfolding can_request request_row
request-Respects n reason t row h = record {
  live = λ e. ground arith;
  identity = kept row _ _ _ _ _;
  container = inr refl;
  running_named = λ e q. cc;
}

discover-Respects :
    (n : ℕ) (container_id : String) (reason : Text) (t : ℕ) (row : Row)
    → can_discover n row ≡ true
    → Respects row (discover_row container_id reason t row)
unfolding can_discover discover_row request_row
discover-Respects n container_id reason t row h = record {
  live = λ e. ground arith;
  identity = kept row _ _ _ _ _;
  container = inl (ground arith);
  running_named = λ e q. cc;
}

final-Respects :
    (n : ℕ) (succeeded : Bool) (t : ℕ) (row : Row)
    → can_finalize n row ≡ true
    → Respects row (final_row succeeded t row)
unfolding can_finalize final_row
final-Respects n succeeded t row h = record {
  live = λ e. ground arith;
  identity = kept row _ _ _ _ _;
  container = inr refl;
  running_named = λ e q. ground arith;
}

new_row-IsNew :
    (containment : Attestation) (runtime digest : String) (gateway : Option String) (mode : Mode)
    (t : ℕ)
    → IsNew (new_row containment runtime digest gateway mode t)
unfolding new_row
new_row-IsNew containment runtime digest gateway mode t = record {
  status = refl;
  container = refl;
  execution = refl;
}

integrity_as-ok :
    (e : RegistryError) (r : Result RegistryError (Option Table)) (o : Option Table)
    → integrity_as e r ≡ ok o
    → r ≡ ok o
integrity_as-ok e (ok x) o h = h
integrity_as-ok e (err x) o h = cc

or_fail-some : {A E : Type 0} (o : Option A) (e : E) (a : A) → or_fail o e ≡ ok a → o ≡ some a
or_fail-some none e a h = cc
or_fail-some (some x) e a h = ap some (ok-injective h)

-- Every call is at most one change, of the worker that it names.
pub register_launch_intent-Change :
    (T : Table) (id : String) (containment : Attestation) (digest : String)
    (clock clock' : Option ℕ)
    → Change id T (register_launch_intent T id containment digest clock clock').0
unfolding register_launch_intent launch_inserted
register_launch_intent-Change T id containment digest clock clock' =
    inserted-Change T id (launch_inserted T id containment digest clock clock') (λ next h.
      let (_, _, h₁) =
        >>=-eq-ok (denied (validate_containment_attestation containment clock)) _ h in
      let (_, _, h₂) =
        >>=-eq-ok (guard (evidence_valid id containment digest) registration_denied) _ h₁ in
      let (t, _, h₃) = >>=-eq-ok (timestamp clock') _ h₂ in
      insert_row-Change T id _ next
        (new_row-IsNew containment containment.runtime digest none deferred t)
        (or_fail-some _ registration_conflict next h₃))

pub register_direct_attachment_intent-Change :
    (T : Table) (id : String) (containment : Attestation) (digest gateway : String)
    (clock clock' : Option ℕ)
    → Change id T (register_direct_attachment_intent T id containment digest gateway clock clock').0
unfolding register_direct_attachment_intent direct_inserted
register_direct_attachment_intent-Change T id containment digest gateway clock clock' =
    inserted-Change T id (direct_inserted T id containment digest gateway clock clock') (λ next h.
      let (_, _, h₁) =
        >>=-eq-ok (denied (validate_containment_attestation containment clock)) _ h in
      let (_, _, h₂) =
        >>=-eq-ok
          (guard
            (containment.runtime == "podman"
              && (evidence_valid id containment digest && is_container_id gateway))
            registration_denied)
          _ h₁ in
      let (t, _, h₃) = >>=-eq-ok (timestamp clock') _ h₂ in
      insert_row-Change T id _ next
        (new_row-IsNew containment "podman" digest (some gateway) podman_direct t)
        (or_fail-some _ registration_conflict next h₃))

pub mark_running-Change :
    (T : Table) (id container_id : String) (clock : Option ℕ)
    → Change id T (mark_running T id container_id clock).0
unfolding mark_running run_attempt
mark_running-Change T id container_id clock =
    updated-Change T id runtime_inactive (run_attempt T id container_id clock) (λ next h.
      let (_, _, h₁) =
        >>=-eq-ok (guard (is_identifier id && is_container_id container_id) runtime_invalid) _ h in
      let (t, _, h₂) = >>=-eq-ok (timestamp clock) _ h₁ in
      update_row-Change T id can_run (run_row container_id t) true next
        (run-Respects container_id t) (integrity_as-ok runtime_conflict _ (some next) h₂))

request_update-Change :
    (T : Table) (id : String) (n : ℕ) (reason : Text) (t : ℕ) (discovered : Option String)
    (next : Table)
    → request_update T id n reason t discovered ≡ ok (some next)
    → Change id T next
request_update-Change T id n reason t none next h =
    update_row-Change T id (can_request n) (request_row reason t) false next
      (request-Respects n reason t) h
request_update-Change T id n reason t (some container_id) next h =
    update_row-Change T id (can_discover n) (discover_row container_id reason t) true next
      (discover-Respects n container_id reason t) h

pub request_termination-Change :
    (T : Table) (id : String) (n : ℕ) (reason : Text) (discovered : Option String)
    (clock : Option ℕ)
    → Change id T (request_termination T id n reason discovered clock).0
unfolding request_termination request_attempt
request_termination-Change T id n reason discovered clock =
    let text = strip_spaces reason in
    updated-Change T id runtime_race (request_attempt T id n text discovered clock) (λ next h.
      let (_, _, h₁) =
        >>=-eq-ok (guard (request_valid id n text discovered) termination_invalid) _ h in
      let (t, _, h₂) = >>=-eq-ok (timestamp clock) _ h₁ in
      request_update-Change T id n text t discovered next h₂)

pub finalize_termination-Change :
    (T : Table) (id : String) (n : ℕ) (succeeded : Bool) (clock : Option ℕ)
    → Change id T (finalize_termination T id n succeeded clock).0
unfolding finalize_termination finalize_attempt
finalize_termination-Change T id n succeeded clock =
    updated-Change T id runtime_race (finalize_attempt T id n succeeded clock) (λ next h.
      let (_, _, h₁) = >>=-eq-ok (guard (is_identifier id && leb 1 n) termination_invalid) _ h in
      let (t, _, h₂) = >>=-eq-ok (timestamp clock) _ h₁ in
      update_row-Change T id (can_finalize n) (final_row succeeded t) false next
        (final-Respects n succeeded t) h₂)
