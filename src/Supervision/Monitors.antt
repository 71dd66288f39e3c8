-- ===== src/Supervision/Monitors.antt =====
-- The monitors that the watchdogs run: `RegisteredWorkerContainmentMonitor` and
-- `AttachmentAwareWorkerContainmentMonitor` (worker_containment_supervisor.py) and
-- `AuthorizationNetworkIdentityMonitor` (network_safety_supervisor.py). What they ask of the container
-- runtime and of the control is a parameter, where `none` and `false` are exceptions.
use pent_ai.Prelude.{
  ℕ, ◌≡◌, ◌↔◌, ◌⊎◌, refl, inl, inr, Bool, true, false, not, ◌&&◌, Option, none, some, String, List,
  [], ◌∷◌, map, arith, ◌==◌, string_eq, option_eq, nat_eq, if◌then◌else◌, length, all, All, All-map,
  all_distinct, Unique, all_distinct_iff, Result, ok, err, ◌>>=◌, ◌>>◌, guard, or_fail,
}
use pent_ai.Workers.Names.{is_identifier}
use pent_ai.Workers.Containment.{Attestation, ContainmentError, validate_containment_attestation}

pub data MonitorError : Type 0 where
  binding_invalid identity_changed attachment_unsafe : MonitorError
  -- an exception of what the monitor calls
  failed : MonitorError

abbrev pub Checked : Type 0
Checked = Result MonitorError (Unit {0})

-- `WorkerContainmentBinding`, and what `WorkerSupervisionBinding` adds.
pub record Binding : Type 0 where
  pub worker_id : String
  pub runtime_instance_id : String
  pub worker_gateway_network_id : String

pub record SupervisionBinding : Type 0 where
  pub binding : Binding
  pub open binding use *
  pub container_id : String
  pub image_digest : String
  pub gateway_container_id : Option String
  pub attachment_status : Option String

unfoldable pub is_named : Binding → Bool
is_named b =
    is_identifier b.worker_id
    && (is_identifier b.runtime_instance_id && is_identifier b.worker_gateway_network_id)

abbrev accepted : Result ContainmentError (Unit {0}) → Checked
accepted (ok u) = ok u
accepted (err e) = err failed

-- The evidence that an attestor measures is valid now, and of this worker.
unfoldable pub check_identity : Option Attestation → ℕ → Binding → Checked
check_identity measured now b = do
  attestation ← or_fail measured failed
  accepted (validate_containment_attestation attestation (some now))
  guard
      (attestation.runtime_instance_id == some b.runtime_instance_id
        && attestation.worker_gateway_network_id == some b.worker_gateway_network_id)
      identity_changed

unfoldable pub check_each {ℓ} : {A : Type ℓ} → (A → Checked) → List A → Checked
check_each check [] = ok tt
check_each check (x ∷ xs) = let rest = check_each check xs in check x >>= λ _. rest

-- `RegisteredWorkerContainmentMonitor.check_all`
unfoldable pub check_registered :
    (Binding → Option Attestation) → (Binding → ℕ) → List Binding → Result MonitorError ℕ
check_registered measure clock bindings = do
  guard (all_distinct (map (λ (b : Binding). b.worker_id) bindings) && all is_named bindings)
      binding_invalid
  check_each (λ b. check_identity (measure b) (clock b) b) bindings
  ok (length bindings)

unfoldable pub is_named_fully : SupervisionBinding → Bool
is_named_fully b =
    is_named b.binding && (is_identifier b.container_id && is_identifier b.image_digest)

-- What the runtime answers about a worker and its attachment.
pub record Inspector : Type 0 where
  pub verify_worker : SupervisionBinding → Bool
  pub measure : SupervisionBinding → Option Attestation
  pub verify_attachment : SupervisionBinding → Bool
  pub clock : SupervisionBinding → ℕ

abbrev pub has_gateway : Option String → Bool
has_gateway none = false
has_gateway (some s) = not (s == "")

-- A worker without an attachment is checked by its evidence, one that is attached by its topology.
unfoldable pub check_topology : Inspector → SupervisionBinding → Option String → Checked
check_topology inspector b none = check_identity (inspector.measure b) (inspector.clock b) b.binding
check_topology inspector b (some status) =
    if status == "attached" && has_gateway b.gateway_container_id
    then guard (inspector.verify_attachment b) failed
    else err attachment_unsafe

unfoldable pub check_supervised : Inspector → SupervisionBinding → Checked
check_supervised inspector b = do
  guard (inspector.verify_worker b) failed
  check_topology inspector b b.attachment_status

-- `AttachmentAwareWorkerContainmentMonitor.check_all`
unfoldable pub check_attached : Inspector → List SupervisionBinding → Result MonitorError ℕ
check_attached inspector bindings = do
  guard
      (all_distinct (map (λ (b : SupervisionBinding). b.worker_id) bindings)
        && all is_named_fully bindings)
      binding_invalid
  check_each (check_supervised inspector) bindings
  ok (length bindings)

-- `AuthorizationNetworkIdentityMonitor.check_all`
unfoldable pub check_networks : Option (List String) → (String → Bool) → Result MonitorError ℕ
check_networks assessments verify = do
  ids ← or_fail assessments failed
  check_each (λ id. guard (verify id) failed) ids
  ok (length ids)

all_iff : {A : Type 0} (p : A → Bool) (xs : List A) → all p xs ≡ true ↔ All (λ x. p x ≡ true) xs
all_iff p [] = ground arith
all_iff p (x ∷ xs) = ground (arith, all_iff p xs)

check_each_iff :
    {A : Type 0} (check : A → Checked) (xs : List A)
    → check_each check xs ≡ ok tt ↔ All (λ x. check x ≡ ok tt) xs
unfolding check_each
check_each_iff check [] = ground arith
check_each_iff check (x ∷ xs) = ground (arith, check_each_iff check xs)

-- A registered worker is contained: its evidence can be measured, is valid when it is checked, and is
-- of this worker.
abbrev pub Contained : Option Attestation → ℕ → Binding → Type 0
Contained measured now b =
    (attestation : Attestation) × ((measured ≡ some attestation)
      × ((validate_containment_attestation attestation (some now) ≡ ok tt)
          × ((attestation.runtime_instance_id ≡ some b.runtime_instance_id)
              × (attestation.worker_gateway_network_id ≡ some b.worker_gateway_network_id))))

check_identity_iff :
    (measured : Option Attestation) (now : ℕ) (b : Binding)
    → check_identity measured now b ≡ ok tt ↔ Contained measured now b
unfolding check_identity
check_identity_iff measured now b = ground arith

All-iff :
    {A : Type 0} {P Q : A → Type 0} (xs : List A) → ((x : A) → P x ↔ Q x) → All P xs ↔ All Q xs
All-iff xs f = (All-map xs (λ x. (f x).0), All-map xs (λ x. (f x).1))

-- The check of the registered workers answers with a number exactly when it is their number, no worker
-- is bound twice, every name is an identifier, and every worker is contained.
pub check_registered_iff :
    (measure : Binding → Option Attestation) (clock : Binding → ℕ) (bindings : List Binding) (n : ℕ)
    → check_registered measure clock bindings ≡ ok n ↔ (
        ((n ≡ length bindings) × Unique (map (λ (b : Binding). b.worker_id) bindings))
        × (All (λ b. is_named b ≡ true) bindings
            × All (λ b. Contained (measure b) (clock b) b) bindings))
unfolding check_registered
check_registered_iff measure clock bindings n =
    let d = all_distinct_iff (map (λ (b : Binding). b.worker_id) bindings) in
    let a = all_iff is_named bindings in
    let e = check_each_iff (λ b. check_identity (measure b) (clock b) b) bindings in
    let (f, g) = All-iff bindings (λ b. check_identity_iff (measure b) (clock b) b) in ground arith

-- What the check of a worker asks, where it may be attached.
abbrev pub Supervised : Inspector → SupervisionBinding → Type 0
Supervised inspector b =
    (inspector.verify_worker b ≡ true)
    × (((b.attachment_status ≡ none)
          × Contained (inspector.measure b) (inspector.clock b) b.binding)
        ⊎ ((b.attachment_status ≡ some "attached")
            × ((has_gateway b.gateway_container_id ≡ true)
                × (inspector.verify_attachment b ≡ true))))

check_topology_iff :
    (inspector : Inspector) (b : SupervisionBinding) (status : Option String)
    → check_topology inspector b status ≡ ok tt ↔ (
        ((status ≡ none) × Contained (inspector.measure b) (inspector.clock b) b.binding)
        ⊎ ((status ≡ some "attached")
            × ((has_gateway b.gateway_container_id ≡ true)
                × (inspector.verify_attachment b ≡ true))))
unfolding check_topology
check_topology_iff inspector b none =
    let (f, g) = check_identity_iff (inspector.measure b) (inspector.clock b) b.binding in
    (λ h. inl (refl, f h), λ c. elim c [ inl (e, h) ↦ g h | inr (e, h) ↦ absurd (ground arith) ])
check_topology_iff inspector b (some status) = ground arith

check_supervised_iff :
    (inspector : Inspector) (b : SupervisionBinding)
    → check_supervised inspector b ≡ ok tt ↔ Supervised inspector b
unfolding check_supervised
check_supervised_iff inspector b =
    let t = check_topology_iff inspector b b.attachment_status in ground arith

-- The check of the supervised workers answers with a number exactly when it is their number, no worker
-- is bound twice, every name is an identifier, the runtime knows every worker, and each is contained
-- while it has no attachment, or attached to its gateway as the runtime verifies.
pub check_attached_iff :
    (inspector : Inspector) (bindings : List SupervisionBinding) (n : ℕ)
    → check_attached inspector bindings ≡ ok n ↔ (
        ((n ≡ length bindings) × Unique (map (λ (b : SupervisionBinding). b.worker_id) bindings))
        × (All (λ b. is_named_fully b ≡ true) bindings × All (Supervised inspector) bindings))
unfolding check_attached
check_attached_iff inspector bindings n =
    let d = all_distinct_iff (map (λ (b : SupervisionBinding). b.worker_id) bindings) in
    let a = all_iff is_named_fully bindings in
    let e = check_each_iff (check_supervised inspector) bindings in
    let (f, g) = All-iff bindings (check_supervised_iff inspector) in ground arith
