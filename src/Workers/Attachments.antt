-- ===== src/Workers/Attachments.antt =====
-- worker_attachment_registry.py, over the tables of the migrations 0031 and 0032, and
-- worker_attachment_recovery.py.
pub mod Resolution
use Prim.Native.Nat.{Ordering}
use Prim.Native.String.{compare}
use pent_ai.Prelude.{
  ℕ, suc, ◌+◌, Bool, true, false, not, ◌&&◌, ◌||◌, Option, none, some, String, List, [], ◌∷◌, Text,
  codes, ◌==◌, string_eq, option_eq, nat_eq, if◌then◌else◌, leb, any, length, Dict, lookup, insert,
  Result, ok, err, ◌>>=◌, ◌>>◌, guard, or_fail,
}
use pent_ai.Workers.Names.{is_identifier, is_container_id, strip_spaces}
use pent_ai.Workers.Containment.{ContainmentError, validate_containment_attestation}
use pent_ai.Workers.Containment
use pent_ai.Workers.Registry.Schema.{
  Status, running, terminated, same_status, Mode, is_direct, Row, Table, is_none,
}
use pent_ai.Workers.Termination.{
  Runtimes, Readings, RecoveryAnswer, RecoveryError, terminate_worker,
}

pub data AttachmentError : Type 0 where
  denied conflict stale invalid race not_found clock_invalid : AttachmentError
  recovery_invalid recovery_conflict recovery_pending recovery_incomplete : AttachmentError
  -- `terminate_worker` raises
  runtime_recovery : AttachmentError

pub data AttachmentStatus : Type 0 where
  prepared attached failed : AttachmentStatus

abbrev pub is_failed : AttachmentStatus → Bool
is_failed failed = true
is_failed _ = false

abbrev pub is_prepared : AttachmentStatus → Bool
is_prepared prepared = true
is_prepared _ = false

pub record Attachment : Type 0 where
  pub attachment_attestation_id : String
  pub runtime_version : ℕ
  pub container_id : String
  pub worker_gateway_network_id : String
  pub gateway_container_id : String
  pub status : AttachmentStatus
  pub created_at : ℕ
  pub updated_at : ℕ
  pub failure_reason : Option Text
  pub version : ℕ

-- The tables: the workers, their attachments, and for each that is resolved its version.
pub record Store : Type 0 where
  pub runtimes : Table
  pub attachments : Dict String Attachment
  pub recoveries : Dict String ℕ

abbrev pub Answer : Type 0
Answer = Store × Result AttachmentError Attachment

-- `_document`
unfoldable pub document : Store → String → Result AttachmentError Attachment
document store worker_id = or_fail (lookup worker_id store.attachments) not_found

abbrev names : Option String → Bool
names none = false
names (some s) = is_identifier s

-- The tests of `prepare` and of `record_direct_attached` on their arguments.
unfoldable pub request_valid : String → ℕ → Containment.Attestation → String → Bool
request_valid worker_id version containment gateway =
    is_identifier worker_id
    && (leb 1 version
        && (names containment.runtime_instance_id
            && (names containment.worker_gateway_network_id
                && (is_container_id gateway && containment.network_role == "worker_gateway"))))

-- The worker's row is the one that the evidence speaks of.
unfoldable pub bound : ℕ → Containment.Attestation → Row → Bool
bound version containment row =
    same_status row.status running
    && (row.version == version
        && (row.oci_runtime == containment.runtime
            && (some row.runtime_instance_id == containment.runtime_instance_id
                && some row.worker_gateway_network_id == containment.worker_gateway_network_id)))

unfoldable pub bound_directly : ℕ → Containment.Attestation → String → Row → Bool
unfolding bound
bound_directly version containment gateway row =
    bound version containment row
    && (is_direct row.attachment_mode && row.gateway_container_id == some gateway)

unfoldable pub attestation_used : String → Dict String Attachment → Bool
attestation_used attestation_id =
    any (λ (_, attachment). attachment.attachment_attestation_id == attestation_id)

abbrev pub new_attachment : String → String → AttachmentStatus → ℕ → Row → String → Attachment
new_attachment attestation_id gateway status timestamp row container_id = record {
  attachment_attestation_id = attestation_id;
  runtime_version = row.version;
  container_id = container_id;
  worker_gateway_network_id = row.worker_gateway_network_id;
  gateway_container_id = gateway;
  status = status;
  created_at = timestamp;
  updated_at = timestamp;
  failure_reason = none;
  version = 1;
}

-- `INSERT ... SELECT`, from the row of the worker; a unique column that is taken is a conflict, and no
-- row that is selected is stale.
abbrev pub insert_selected :
    Store
    → String
    → String
    → String
    → AttachmentStatus
    → ℕ
    → (Row → Bool)
    → Option Row
    → Result AttachmentError Store
insert_selected store worker_id attestation_id gateway status timestamp condition none = err stale
insert_selected store worker_id attestation_id gateway status timestamp condition (some row) =
    or_fail row.container_id stale >>= λ container_id. guard (condition row) stale >>= λ _.
    guard
      (is_none (lookup worker_id store.attachments)
        && not (attestation_used attestation_id store.attachments))
      conflict
    >>= λ _. ok (record store {
      attachments =
          insert worker_id (new_attachment attestation_id gateway status timestamp row container_id)
            store.attachments;
    })

abbrev as_denied : Result ContainmentError (Unit {0}) → Result AttachmentError (Unit {0})
as_denied (ok u) = ok u
as_denied (err e) = err denied

abbrev pub inserted : Store → String → Result AttachmentError Store → Answer
inserted store worker_id (ok next) = (next, document next worker_id)
inserted store worker_id (err e) = (store, err e)

-- `prepare`
unfoldable pub prepare :
    Store → String → ℕ → Containment.Attestation → String → Option ℕ → Option ℕ → Answer
prepare store worker_id version containment gateway clock clock' = inserted store worker_id (
    as_denied (validate_containment_attestation containment clock) >>= λ _.
    guard (request_valid worker_id version containment gateway) denied >>= λ _.
    or_fail clock' clock_invalid >>= λ timestamp.
    insert_selected store worker_id containment.attestation_id gateway prepared timestamp
      (bound version containment) (lookup worker_id store.runtimes))

-- `record_direct_attached`
unfoldable pub record_direct_attached :
    Store → String → ℕ → Containment.Attestation → String → Option ℕ → Option ℕ → Answer
record_direct_attached store worker_id version containment gateway clock clock' =
    inserted store worker_id (
      as_denied (validate_containment_attestation containment clock) >>= λ _.
      guard (request_valid worker_id version containment gateway && containment.runtime == "podman")
        denied
      >>= λ _. or_fail clock' clock_invalid >>= λ timestamp.
          insert_selected store worker_id containment.attestation_id gateway attached timestamp
            (bound_directly version containment gateway) (lookup worker_id store.runtimes))

-- The transitions that the statement of `_transition` and the triggers let through
unfoldable pub may_become : AttachmentStatus → AttachmentStatus → Bool
may_become prepared attached = true
may_become prepared failed = true
may_become attached failed = true
may_become _ _ = false

unfoldable pub moved : AttachmentStatus → Option Text → ℕ → Attachment → Attachment
moved status reason timestamp attachment = record attachment {
  status = status;
  failure_reason = reason;
  updated_at = timestamp;
  version = suc attachment.version;
}

abbrev pub transition_found :
    Store → String → ℕ → AttachmentStatus → Option Text → ℕ → Option Attachment → Answer
transition_found store worker_id version status reason timestamp none = (store, err race)
transition_found store worker_id version status reason timestamp (some attachment) =
    if attachment.version == version && may_become attachment.status status
    then inserted store worker_id (
        ok (record store {
          attachments =
              insert worker_id (moved status reason timestamp attachment) store.attachments;
        }))
    else (store, err race)

abbrev pub transition_timed :
    Store → String → ℕ → AttachmentStatus → Option Text → Option ℕ → Answer
transition_timed store worker_id version status reason none = (store, err clock_invalid)
transition_timed store worker_id version status reason (some timestamp) =
    transition_found store worker_id version status reason timestamp
      (lookup worker_id store.attachments)

-- `_transition`
unfoldable pub transition : Store → String → ℕ → AttachmentStatus → Option Text → Option ℕ → Answer
transition store worker_id version status reason clock =
    if not (is_identifier worker_id && leb 1 version)
    then (store, err invalid)
    else transition_timed store worker_id version status reason clock

unfoldable pub mark_attached : Store → String → ℕ → Option ℕ → Answer
unfolding transition
mark_attached store worker_id version clock = transition store worker_id version attached none clock

unfoldable pub mark_failed : Store → String → ℕ → Text → Option ℕ → Answer
mark_failed store worker_id version reason clock =
    let normalized_reason = strip_spaces reason in
    if length normalized_reason == 0 || not (leb (length normalized_reason) 256)
    then (store, err invalid)
    else transition store worker_id version failed (some normalized_reason) clock

-- The join of `resolve_recovery`: the attachment failed at this version, and the worker that has its
-- container is terminated.
unfoldable pub resolvable : ℕ → Option Attachment → Option Row → Bool
resolvable version none row = false
resolvable version (some attachment) none = false
resolvable version (some attachment) (some row) =
    attachment.version == version
    && (is_failed attachment.status
        && (same_status row.status terminated && row.container_id == some attachment.container_id))

abbrev pub ResolveAnswer : Type 0
ResolveAnswer = Store × Result AttachmentError (Unit {0})

-- `resolve_recovery`
unfoldable pub resolve_recovery : Store → String → ℕ → Option ℕ → ResolveAnswer
resolve_recovery store worker_id version clock =
    if not (is_identifier worker_id && leb 1 version)
    then (store, err recovery_invalid)
    else if is_none clock
    then (store, err clock_invalid)
    else if not
        (resolvable version (lookup worker_id store.attachments) (lookup worker_id store.runtimes))
    then (store, err recovery_pending)
    else if not (is_none (lookup worker_id store.recoveries))
    then (store, err recovery_conflict)
    else (record store { recoveries = insert worker_id version store.recoveries }, ok tt)

abbrev pub Candidate : Type 0
Candidate = String × Attachment

unfoldable pub insert_candidate : Candidate → List Candidate → List Candidate
insert_candidate (id, attachment) [] = (id, attachment) ∷ []
insert_candidate (id, attachment) ((j, other) ∷ rest) = elim (compare id j) [
  | Ordering.gt ↦ (j, other) ∷ insert_candidate (id, attachment) rest
  | _ ↦ (id, attachment) ∷ ((j, other) ∷ rest)
]

-- `recovery_candidates`: the attachments without a recovery, in the order of their workers.
unfoldable pub unresolved : Dict String ℕ → Dict String Attachment → List Candidate
unresolved recoveries [] = []
unresolved recoveries ((id, attachment) ∷ attachments) =
    let rest = unresolved recoveries attachments in
    if is_none (lookup id recoveries) then insert_candidate (id, attachment) rest else rest

unfoldable pub recovery_candidates : Store → List Candidate
recovery_candidates store = unresolved store.recoveries store.attachments

-- The times that a recovery of an attachment reads.
pub record Clocks : Type 0 where
  pub failing : Option ℕ
  pub resolving : Option ℕ
  pub resolving_again : Option ℕ

abbrev pub Times : Type 0
Times = String → Clocks

abbrev pub startup_reason : Text
startup_reason = codes "startup attachment recovery"

abbrev pub resolve_again : Store → String → ℕ → Option ℕ → RecoveryAnswer → ResolveAnswer
resolve_again store id version clock (table, err e) =
    (record store { runtimes = table }, err runtime_recovery)
resolve_again store id version clock (table, ok u) =
    resolve_recovery (record store { runtimes = table }) id version clock

-- The first attempt, and where it is pending the end of the worker and another attempt.
abbrev pub resolve_after :
    Runtimes → Readings → String → ℕ → Option ℕ → ResolveAnswer → ResolveAnswer
resolve_after runtimes readings id version clock (store, ok u) = (store, ok u)
resolve_after runtimes readings id version clock (store, err recovery_pending) =
    resolve_again store id version clock
      (terminate_worker runtimes readings store.runtimes id startup_reason)
resolve_after runtimes readings id version clock (store, err e) = (store, err e)

unfoldable pub resolve : Runtimes → Readings → Clocks → Store → String → ℕ → ResolveAnswer
resolve runtimes readings clocks store id version =
    resolve_after runtimes readings id version clocks.resolving_again
      (resolve_recovery store id version clocks.resolving)

abbrev pub resolve_failed : Runtimes → Readings → Clocks → String → Answer → ResolveAnswer
resolve_failed runtimes readings clocks id (store, err e) = (store, err e)
resolve_failed runtimes readings clocks id (store, ok attachment) =
    resolve runtimes readings clocks store id attachment.version

-- `_recover`
unfoldable pub recover_attachment : Runtimes → Readings → Clocks → Store → Candidate → ResolveAnswer
recover_attachment runtimes readings clocks store (id, attachment) =
    if not (leb 1 attachment.version)
    then (store, err recovery_invalid)
    else if is_failed attachment.status
    then resolve runtimes readings clocks store id attachment.version
    else resolve_failed runtimes readings clocks id
        (mark_failed store id attachment.version startup_reason clocks.failing)

abbrev pub failures_of : Result AttachmentError (Unit {0}) → ℕ
failures_of (ok u) = 0
failures_of (err e) = 1

unfoldable pub recover_each : Runtimes → Readings → Times → Store → List Candidate → Store × ℕ
recover_each runtimes readings times store [] = (store, 0)
recover_each runtimes readings times store ((id, attachment) ∷ rest) =
    let step = recover_attachment runtimes readings (times id) store (id, attachment) in
    let last = recover_each runtimes readings times step.0 rest in
    (last.0, failures_of step.1 + last.1)

-- `recover_all`
unfoldable pub recover_all : Runtimes → Readings → Times → Store → Store × Result AttachmentError ℕ
recover_all runtimes readings times store =
    let candidates = recovery_candidates store in
    let last = recover_each runtimes readings times store candidates in
    if last.1 == 0 then (last.0, ok (length candidates)) else (last.0, err recovery_incomplete)
