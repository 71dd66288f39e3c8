-- ===== src/Workers/Containment.antt =====
-- worker_containment.py: the evidence that a runtime contains its workers, and the launch that it
-- allows.
use pent_ai.Prelude.{
  ℕ, ◌-◌, ◌≤◌, ◌<◌, ◌≡◌, ◌↔◌, refl, Bool, true, false, not, ◌&&◌, ◌||◌, Option, some, List, [], ◌∷◌,
  String, Text, ltb, leb, arith, length, all, any, contains, ◌==◌, nat_eq, string_eq, Result, ok,
  ◌>>=◌, ◌>>◌, guard, or_fail, >>=-eq-ok, guard-eq-ok,
}

pub data ContainmentError : Type 0 where
  attestation_invalid attestation_stale containment_unavailable runtime_socket : ContainmentError
  gateway_session_invalid gateway_session_inactive worker_command_invalid : ContainmentError
  worker_launch_invalid inspection_failed : ContainmentError
  -- a `ValueError` of `parse_time`, and a `TypeError` of a clock without a time zone
  timestamp_unreadable clock_naive : ContainmentError

-- `_REQUIRED_TRUE`
pub data Measure : Type 0 where
  rootless read_only_root capabilities_dropped no_new_privileges host_pid_disabled : Measure
  host_ipc_disabled host_network_disabled resource_limits_supported temporary_mounts_only : Measure
  direct_egress_disabled external_dns_disabled ipv6_disabled : Measure

unfoldable pub required_true : List Measure
required_true =
    rootless ∷ read_only_root ∷ capabilities_dropped ∷ no_new_privileges ∷ host_pid_disabled
    ∷ host_ipc_disabled ∷ host_network_disabled ∷ resource_limits_supported ∷ temporary_mounts_only
    ∷ direct_egress_disabled ∷ external_dns_disabled ∷ ipv6_disabled ∷ []

-- An attestation. `well_formed` is the verdict of its schema; a time is `none` where it cannot be
-- read, and an identifier where it is no text.
pub record Attestation : Type 0 where
  pub well_formed : Bool
  pub attestation_id : String
  pub runtime : String
  pub runtime_instance_id : Option String
  pub worker_gateway_network_id : Option String
  pub network_role : String
  pub observed_at : Option ℕ
  pub expires_at : Option ℕ
  pub measures : Measure → Bool
  pub runtime_socket_mounted : Bool

-- `timedelta(seconds=60)`, in microseconds
abbrev pub max_attestation_lifetime : ℕ
max_attestation_lifetime = 60_000_000

-- `_validate_containment_attestation`
unfoldable pub validate_containment_attestation :
    Attestation → Option ℕ → Result ContainmentError (Unit {0})
validate_containment_attestation attestation now = do
  guard attestation.well_formed attestation_invalid
  observed_at ← or_fail attestation.observed_at timestamp_unreadable
  expires_at ← or_fail attestation.expires_at timestamp_unreadable
  instant ← or_fail now clock_naive
  guard (leb observed_at instant) attestation_stale
  guard (ltb instant expires_at) attestation_stale
  guard (ltb observed_at expires_at && leb (expires_at - observed_at) max_attestation_lifetime)
      attestation_invalid
  guard (all attestation.measures required_true) containment_unavailable
  guard (not attestation.runtime_socket_mounted) runtime_socket

pub record Session : Type 0 where
  pub well_formed : Bool
  pub session_id : String
  pub status : String
  pub execution_enabled : Bool

-- The specification of a launch: the fields that `prepare_worker_launch` chooses.
pub record LaunchSpec : Type 0 where
  pub launch_id : String
  pub session_id : String
  pub containment_attestation_id : String
  pub image_digest : String
  pub argv : List Text
  pub network_mode : String
  pub gateway_network_id : Option String
  pub read_only_root : Bool
  pub drop_capabilities : String
  pub no_new_privileges : Bool
  pub pid_limit : ℕ
  pub memory_bytes : ℕ
  -- in millionths of a CPU
  pub cpu_quota : ℕ
  pub temporary_workspace : Bool
  pub mount_runtime_socket : Bool
  pub host_pid : Bool
  pub host_ipc : Bool
  pub ipv6_enabled : Bool
  pub external_dns_enabled : Bool
  pub execution_enabled : Bool

abbrev pub max_argv_items : ℕ
max_argv_items = 64

abbrev pub max_arg_length : ℕ
max_arg_length = 4096

unfoldable pub argument_invalid : Text → Bool
argument_invalid item = length item == 0 || (ltb max_arg_length (length item) || contains item 0)

-- The tests on the command
unfoldable pub command_valid : List Text → Bool
command_valid argv =
    not (length argv == 0) && (leb (length argv) max_argv_items && not (any argument_invalid argv))

-- `prepare_worker_launch`; `spec_valid` is the verdict of the specification's schema.
unfoldable pub prepare_worker_launch :
    (LaunchSpec → Bool)
    → String
    → Session
    → Attestation
    → String
    → List Text
    → ℕ
    → ℕ
    → ℕ
    → Option ℕ
    → Result ContainmentError LaunchSpec
prepare_worker_launch spec_valid uuid session attestation image_digest argv pid_limit memory_bytes
      cpu_quota now =
    do
      validate_containment_attestation attestation now
      guard session.well_formed gateway_session_invalid
      guard (session.status == "prepared" && not session.execution_enabled) gateway_session_inactive
      guard (command_valid argv) worker_command_invalid
      let document : LaunchSpec = record {
        launch_id = uuid;
        session_id = session.session_id;
        containment_attestation_id = attestation.attestation_id;
        image_digest = image_digest;
        argv = argv;
        network_mode = "gateway_only";
        gateway_network_id = attestation.worker_gateway_network_id;
        read_only_root = true;
        drop_capabilities = "ALL";
        no_new_privileges = true;
        pid_limit = pid_limit;
        memory_bytes = memory_bytes;
        cpu_quota = cpu_quota;
        temporary_workspace = true;
        mount_runtime_socket = false;
        host_pid = false;
        host_ipc = false;
        ipv6_enabled = false;
        external_dns_enabled = false;
        execution_enabled = false;
      }
      guard (spec_valid document) worker_launch_invalid
      ok document

-- What an attestation must show at a time.
pub record IsContained (attestation : Attestation) (instant : ℕ) : Type 0 where
  pub observed_at : ℕ
  pub expires_at : ℕ
  pub well_formed : attestation.well_formed ≡ true
  pub observed : attestation.observed_at ≡ some observed_at
  pub expires : attestation.expires_at ≡ some expires_at
  pub past : observed_at ≤ instant
  pub fresh : instant < expires_at
  pub short : expires_at - observed_at ≤ max_attestation_lifetime
  pub measured : (m : Measure) → attestation.measures m ≡ true
  pub no_socket : attestation.runtime_socket_mounted ≡ false

all-member : (p : Measure → Bool) → all p required_true ≡ true → (m : Measure) → p m ≡ true
unfolding required_true
all-member p h rootless = ground arith
all-member p h read_only_root = ground arith
all-member p h capabilities_dropped = ground arith
all-member p h no_new_privileges = ground arith
all-member p h host_pid_disabled = ground arith
all-member p h host_ipc_disabled = ground arith
all-member p h host_network_disabled = ground arith
all-member p h resource_limits_supported = ground arith
all-member p h temporary_mounts_only = ground arith
all-member p h direct_egress_disabled = ground arith
all-member p h external_dns_disabled = ground arith
all-member p h ipv6_disabled = ground arith

all-true : {A : Type 0} (p : A → Bool) (xs : List A) → ((x : A) → p x ≡ true) → all p xs ≡ true
all-true p [] h = refl
all-true p (x ∷ xs) h = let e = h x in ground (arith, all-true p xs h)

-- An attestation passes at a time exactly when it is well formed, was observed by then and does not
-- expire by then, lives for at most a minute, shows every required measure and no runtime socket.
pub validate_containment_attestation_iff :
    (attestation : Attestation) (instant : ℕ)
    → validate_containment_attestation attestation (some instant) ≡ ok tt
      ↔ IsContained attestation instant
unfolding validate_containment_attestation
validate_containment_attestation_iff attestation instant = (
  λ h.
      let (_, a, h₁) = >>=-eq-ok (guard attestation.well_formed attestation_invalid) _ h in
      let (o, b, h₂) = >>=-eq-ok (or_fail attestation.observed_at timestamp_unreadable) _ h₁ in
      let (e, c, h₃) = >>=-eq-ok (or_fail attestation.expires_at timestamp_unreadable) _ h₂ in
      let d : all attestation.measures required_true ≡ true = ground arith in
      record {
        observed_at = o;
        expires_at = e;
        well_formed = guard-eq-ok _ _ a;
        observed = ground arith;
        expires = ground arith;
        past = ground arith;
        fresh = ground arith;
        short = ground arith;
        measured = all-member attestation.measures d;
        no_socket = ground arith;
      },
  λ c.
      let d = all-true attestation.measures required_true c.measured in
      let w = c.well_formed in
      let o = c.observed in
      let e = c.expires in
      let p = c.past in let f = c.fresh in let s = c.short in let n = c.no_socket in ground arith,
)
