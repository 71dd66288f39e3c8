-- ===== src/Tests/Watchdogs.antt =====
-- Runs of the supervisors.
use pent_ai.Prelude.{string_eq, ◌≡◌, ◌≢◌, refl, true, false, none, some, []}
use pent_ai.Supervision.{stopped, ready, degraded, is_alive, Supervisor, initial}
use pent_ai.Supervision.Network.{
  Steps-live, Steps-degraded, unconfigured_status, unconfigured_found, unconfigured_status-degraded,
}
use pent_ai.Supervision.Network
use pent_ai.Supervision.Worker.{Steps-watched, Steps-contained}
use pent_ai.Supervision.Worker
use pent_ai.Supervision.Gateway.{Steps-guarded}
use pent_ai.Supervision.Gateway
use pent_ai.Workers.Containment.{Attestation}
use pent_ai.Supervision.Monitors.{Binding, SupervisionBinding, Inspector}

-- The network supervisor starts, and its watchdog's first check fails.
abbrev network_up : Supervisor
network_up = Network.start (some 2) true initial

abbrev network_checks : Supervisor
network_checks = Network.watch none true network_up

abbrev network_down : Supervisor
network_down = Network.watch none true network_checks

abbrev network_run : Network.Steps initial network_up
network_run = Network.then_step Network.done (Network.starts (some 2) true refl)

-- It is stopped, its thread ends, and it is started again.
abbrev network_ending : Supervisor
network_ending = Network.begin_stop network_up

abbrev network_ended : Supervisor
network_ended = Network.watch none true network_ending

abbrev network_stopped : Supervisor
network_stopped = Network.end_stop true network_ended

abbrev network_restarted : Supervisor
network_restarted = Network.start (some 3) true network_stopped

network_flags :
    (network_up.stopping ≡ false)
    × (network_ended.stopping ≡ true)
    × (network_stopped.stopping ≡ false)
    × (network_restarted.snapshot.status ≡ ready)
    × (network_restarted.stopping ≡ false)
unfolding Network.start Network.started Network.begin_stop Network.end_stop Network.watch_at
    Network.checked Network.degrade
network_flags = (refl, refl, refl, refl, refl)

abbrev network_restart : Network.Steps initial network_restarted
network_restart =
    let (up, ended, halted, _, _) = network_flags in
    Network.then_step
      (Network.then_step
        (Network.then_step (Network.then_step network_run (Network.begins up))
          (Network.watches none true))
        (Network.ends true ended))
      (Network.starts (some 3) true halted)

Steps-live_example :
    (network_restarted.snapshot.status ≡ ready
      → network_restarted.stopping ≡ false
      → (is_alive network_restarted.thread ≡ true) × (network_restarted.stop ≡ false))
    × (network_restarted.snapshot.status ≡ stopped → is_alive network_restarted.thread ≡ false)
Steps-live_example = Steps-live network_restarted network_restart

network_down_test : network_down.snapshot.status ≡ degraded
unfolding Network.start Network.started Network.watch_at Network.checked Network.degrade
network_down_test = refl

abbrev network_again : Supervisor
network_again = Network.start (some 2) true network_down

not_stopping : network_down.stopping ≡ false
unfolding Network.start Network.started Network.watch_at Network.checked Network.degrade
not_stopping = refl

Steps-degraded_example : (network_again.snapshot.status ≡ degraded) × (network_again.pauses ≢ [])
Steps-degraded_example =
    Steps-degraded network_down network_again
      (Network.then_step (Network.then_step network_run (Network.watches none true))
        (Network.watches none true))
      network_down_test (Network.then_step Network.done (Network.starts (some 2) true not_stopping))

unknown_test : (unconfigured_status none true none).0.status ≡ degraded
unfolding unconfigured_status unconfigured_found
unknown_test = refl

abbrev worker_up : Supervisor
worker_up = Worker.start (some 1) true true initial

abbrev worker_ending : Supervisor
worker_ending = Worker.begin_stop worker_up

abbrev worker_ended : Supervisor
worker_ended = Worker.watch none true true worker_ending

abbrev worker_halted : Supervisor
worker_halted = Worker.end_stop true true worker_ended

abbrev worker_restarted : Supervisor
worker_restarted = Worker.start (some 2) true true worker_halted

worker_flags :
    (worker_up.stopping ≡ false)
    × (worker_ended.stopping ≡ true)
    × (worker_halted.stopping ≡ false)
    × (worker_restarted.snapshot.status ≡ ready)
    × (worker_restarted.stopping ≡ false)
unfolding Worker.start Worker.started Worker.begin_stop Worker.end_stop Worker.watch_at
    Worker.checked Worker.degrade Worker.finish_stop
worker_flags = (refl, refl, refl, refl, refl)

abbrev worker_restart : Worker.Steps initial worker_restarted
worker_restart =
    let (up, ended, halted, _, _) = worker_flags in
    Worker.then_step
      (Worker.then_step
        (Worker.then_step
          (Worker.then_step (Worker.then_step Worker.done (Worker.starts (some 1) true true refl))
            (Worker.begins up))
          (Worker.watches none true true))
        (Worker.ends true true ended))
      (Worker.starts (some 2) true true halted)

Steps-watched_example :
    (worker_restarted.snapshot.status ≡ ready
      → worker_restarted.stopping ≡ false
      → (is_alive worker_restarted.thread ≡ true) × (worker_restarted.stop ≡ false))
    × (worker_restarted.snapshot.status ≡ stopped → is_alive worker_restarted.thread ≡ false)
Steps-watched_example = Steps-watched worker_restarted worker_restart

abbrev worker_down : Supervisor
worker_down = Worker.start none true false initial

worker_down_test : worker_down.snapshot.status ≡ degraded
unfolding Worker.start Worker.started Worker.degrade
worker_down_test = refl

abbrev worker_stopped : Supervisor
worker_stopped = Worker.begin_stop worker_down

worker_not_stopping : worker_down.stopping ≡ false
unfolding Worker.start Worker.started Worker.degrade
worker_not_stopping = refl

Steps-contained_example :
    (worker_stopped.snapshot.status ≡ degraded)
    × ((worker_stopped.pauses ≢ []) × (worker_stopped.terminations ≢ []))
Steps-contained_example =
    Steps-contained worker_down worker_stopped
      (Worker.then_step Worker.done (Worker.starts none true false refl)) worker_down_test
      (Worker.then_step Worker.done (Worker.begins worker_not_stopping))

abbrev gateway_up : Supervisor
gateway_up = Gateway.start true (some 3) true initial

abbrev gateway_ending : Supervisor
gateway_ending = Gateway.begin_stop (some 0) true gateway_up

abbrev gateway_ended : Supervisor
gateway_ended = Gateway.watch true true true gateway_ending

abbrev gateway_halted : Supervisor
gateway_halted = Gateway.end_stop (some 0) true gateway_ended

abbrev gateway_restarted : Supervisor
gateway_restarted = Gateway.start true (some 1) true gateway_halted

gateway_flags :
    (gateway_up.stopping ≡ false)
    × (gateway_ended.stopping ≡ true)
    × (gateway_halted.stopping ≡ false)
    × (gateway_restarted.snapshot.status ≡ ready)
    × (gateway_restarted.stopping ≡ false)
unfolding Gateway.start Gateway.started Gateway.begin_stop Gateway.end_stop Gateway.watch_at
    Gateway.checked Gateway.degrade Gateway.finish_stop
gateway_flags = (refl, refl, refl, refl, refl)

abbrev gateway_restart : Gateway.Steps initial gateway_restarted
gateway_restart =
    let (up, ended, halted, _, _) = gateway_flags in
    Gateway.then_step
      (Gateway.then_step
        (Gateway.then_step
          (Gateway.then_step
            (Gateway.then_step Gateway.done (Gateway.starts true (some 3) true refl))
            (Gateway.begins (some 0) true up))
          (Gateway.watches true true true))
        (Gateway.ends (some 0) true ended))
      (Gateway.starts true (some 1) true halted)

Steps-guarded_example :
    (gateway_restarted.snapshot.status ≡ ready
      → gateway_restarted.stopping ≡ false
      → (is_alive gateway_restarted.thread ≡ true) × (gateway_restarted.stop ≡ false))
    × ((gateway_restarted.snapshot.status ≡ stopped → is_alive gateway_restarted.thread ≡ false)
        × (gateway_restarted.snapshot.status ≡ degraded
            → (gateway_restarted.pauses ≢ [])
              × (is_alive gateway_restarted.thread ≡ true → gateway_restarted.stop ≡ true)))
Steps-guarded_example = Steps-guarded gateway_restarted gateway_restart

-- One worker that is registered, and one that is attached.
abbrev the_binding : Binding
the_binding = record { worker_id = "w"; runtime_instance_id = "i"; worker_gateway_network_id = "n" }

abbrev the_evidence : Attestation
the_evidence = record {
  well_formed = true;
  attestation_id = "a";
  runtime = "podman";
  runtime_instance_id = some "i";
  worker_gateway_network_id = some "n";
  network_role = "worker_gateway";
  observed_at = some 0;
  expires_at = some 60_000_000;
  measures = λ m. true;
  runtime_socket_mounted = false;
}

abbrev the_inspector : Inspector
the_inspector = record {
  verify_worker = λ b. true;
  measure = λ b. some the_evidence;
  verify_attachment = λ b. true;
  clock = λ b. 5;
}

abbrev attached_binding : SupervisionBinding
attached_binding = record {
  binding = the_binding;
  container_id = "c";
  image_digest = "d";
  gateway_container_id = some "g";
  attachment_status = some "attached";
}
