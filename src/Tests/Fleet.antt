-- ===== src/Tests/Fleet.antt =====
-- A worker's life on concrete tables.
use pent_ai.Prelude.{
  ℕ, ◌≡◌, ◌≢◌, ap, ◌↔◌, ◌⊎◌, Any, refl, true, false, Option, none, some, String, [], ◌∷◌, codes,
  ◌==◌, string_eq, option_eq, ℕ_discrete, leb, lookup, insert, ok, err,
}
use pent_ai.Workers.Names.{
  is_identifier, matches_identifier, is_alphanumeric, is_name_character, is_hex_digit, is_digest,
  strip_spaces, strip_left, strip_right, is_space,
}
use pent_ai.Workers.Containment.{
  Attestation, validate_containment_attestation, required_true, IsContained,
  validate_containment_attestation_iff,
}
use pent_ai.Workers.Registry.Schema.{
  Row, Table, terminated, failed, deferred, rows_clash, conflicting, row_valid, insert_row,
  update_row, triggers_pass, transition_allowed,
}
use pent_ai.Workers.Registry.{
  register_launch_intent, launch_inserted, evidence_valid, new_row, document, run_row,
  request_termination, request_attempt, request_valid, request_row, can_request,
  finalize_termination, finalize_attempt, final_row, can_finalize,
}
use pent_ai.Workers.Registry.History.{Reach, Follows, Reach-Follows}
use pent_ai.Workers.Registry.History
use pent_ai.Workers.Registry.Identity.{Reach-apart}
use pent_ai.Workers.Registry.Races.{request_termination-once}
use pent_ai.Workers.Termination.{
  Controller, Runtimes, Readings, RecoveryError, terminate_all, terminate_each, recover_candidate,
  recovery_candidates, insert_candidate, find_container, end_container, finish, terminate_worker,
}
use pent_ai.Workers.Termination.Completeness.{Ended, terminate_all_complete}
use pent_ai.Workers.Termination.Stuck.{recover_candidate-stuck}
use pent_ai.Workers.Attachments.{
  Store, Attachment, AttachmentStatus, Times, Clocks, attached, recover_all, recover_each,
  recover_attachment, resolve, resolve_recovery, resolvable, mark_failed, transition, may_become,
  moved, unresolved,
}
use pent_ai.Workers.Attachments
use pent_ai.Workers.Attachments.Resolution.{recover_all-resolved, resolve_recovery_iff}

abbrev the_evidence : Attestation
the_evidence = record {
  well_formed = true;
  attestation_id = "a";
  runtime = "docker";
  runtime_instance_id = some "i";
  worker_gateway_network_id = some "n";
  network_role = "worker_gateway";
  observed_at = some 0;
  expires_at = some 60_000_000;
  measures = λ m. true;
  runtime_socket_mounted = false;
}

validate_containment_attestation_iff_example :
    validate_containment_attestation the_evidence (some 9) ≡ ok tt ↔ IsContained the_evidence 9
validate_containment_attestation_iff_example = validate_containment_attestation_iff the_evidence 9

abbrev digest : String
digest = "sha256:0000000000000000000000000000000000000000000000000000000000000000"

abbrev launched : Row
launched = new_row the_evidence "docker" digest none deferred 9

abbrev live : Row
live = run_row "aaaaaaaaaaaa" 10 launched

abbrev first_table : Table
first_table = (register_launch_intent [] "w" the_evidence digest (some 9) (some 9)).0

register_test : first_table ≡ ("w", launched) ∷ []
unfolding register_launch_intent launch_inserted validate_containment_attestation required_true
    evidence_valid new_row insert_row row_valid conflicting rows_clash is_identifier
    matches_identifier is_alphanumeric is_name_character is_digest is_hex_digit string_eq ℕ_discrete
    lookup insert
register_test = refl

-- Another worker, on another network.
abbrev other_evidence : Attestation
other_evidence = record the_evidence { worker_gateway_network_id = some "m" }

abbrev two_workers : Table
two_workers = (register_launch_intent first_table "v" other_evidence digest (some 9) (some 9)).0

abbrev other_row : Row
other_row = new_row other_evidence "docker" digest none deferred 9

first_found : lookup "w" two_workers ≡ some launched
unfolding register_launch_intent launch_inserted validate_containment_attestation required_true
    evidence_valid new_row insert_row row_valid conflicting rows_clash is_identifier
    matches_identifier is_alphanumeric is_name_character is_digest is_hex_digit string_eq ℕ_discrete
    lookup insert
first_found = refl

other_found : lookup "v" two_workers ≡ some other_row
unfolding register_launch_intent launch_inserted validate_containment_attestation required_true
    evidence_valid new_row insert_row row_valid conflicting rows_clash is_identifier
    matches_identifier is_alphanumeric is_name_character is_digest is_hex_digit string_eq ℕ_discrete
    lookup insert
other_found = refl

abbrev reached : Reach [] two_workers
reached =
    History.registers "v" other_evidence digest (some 9) (some 9)
      (History.registers "w" the_evidence digest (some 9) (some 9) History.start)

names_differ : ◌≢◌ {A = String} "w" "v"
unfolding string_eq
names_differ e = let p : false ≡ true = ap (λ s. s == "v") e in cc

Reach-apart_example :
    (launched.container_id ≡ other_row.container_id → launched.container_id ≡ none)
    × (launched.status ≢ terminated
        → other_row.status ≢ terminated
        → launched.runtime_instance_id ≡ other_row.runtime_instance_id
        → launched.worker_gateway_network_id ≢ other_row.worker_gateway_network_id)
Reach-apart_example =
    Reach-apart two_workers "w" "v" launched other_row reached names_differ first_found other_found

abbrev running_table : Table
running_table = ("w", live) ∷ []

live_found : lookup "w" running_table ≡ some live
unfolding lookup string_eq
live_found = refl

Reach-Follows_example :
    (row : Row) × ((lookup "w" (finalize_termination running_table "w" 2 true none).0 ≡ some row)
      × Follows live row)
Reach-Follows_example =
    Reach-Follows "w" live (History.finalizes "w" 2 true none History.start) live_found

abbrev requested_row : Row
requested_row = request_row (codes "stop") 11 live

request_test :
    (request_termination running_table "w" 2 (codes "stop ") none (some 11)).1 ≡ ok requested_row
unfolding request_termination request_attempt request_valid request_row can_request run_row new_row
    strip_spaces strip_left strip_right is_space update_row triggers_pass transition_allowed
    conflicting rows_clash document is_identifier matches_identifier is_alphanumeric
    is_name_character string_eq ℕ_discrete lookup insert
request_test = refl

request_termination-once_example :
    let next = (request_termination running_table "w" 2 (codes "stop ") none (some 11)).0 in
    ((request_termination next "w" 2 (codes "again") none (some 12)).0 ≡ next)
    × ((finalize_termination next "w" 2 true (some 12)).0 ≡ next)
request_termination-once_example =
    request_termination-once running_table
      (request_termination running_table "w" 2 (codes "stop ") none (some 11)).0 "w" 2
      (codes "stop ") (codes "again") none none (some 11) (some 12) true requested_row request_test
      History.start

abbrev the_controller : Controller
the_controller = record {
  discover_owned = λ id. some none;
  verify_ownership = λ id c. true;
  terminate = λ c. true;
}

abbrev the_runtimes : Runtimes
the_runtimes name = some the_controller

abbrev the_readings : Readings
the_readings id = (some 11, some 12)

abbrev ended_row : Row
ended_row = final_row true 12 requested_row

terminate_test :
    terminate_all the_runtimes the_readings running_table (codes "stop")
    ≡ (("w", ended_row) ∷ [], ok 1)
unfolding terminate_all terminate_each recover_candidate recovery_candidates insert_candidate
    find_container end_container finish finalize_termination finalize_attempt final_row can_finalize
    request_termination request_attempt request_valid request_row can_request run_row new_row
    strip_spaces strip_left strip_right is_space update_row triggers_pass transition_allowed
    conflicting rows_clash document is_identifier matches_identifier is_alphanumeric
    is_name_character string_eq ℕ_discrete lookup insert
terminate_test = refl

ended_found :
    lookup "w" (terminate_all the_runtimes the_readings running_table (codes "stop")).0
    ≡ some ended_row
unfolding terminate_all terminate_each recover_candidate recovery_candidates insert_candidate
    find_container end_container finish finalize_termination finalize_attempt final_row can_finalize
    request_termination request_attempt request_valid request_row can_request run_row new_row
    strip_spaces strip_left strip_right is_space update_row triggers_pass transition_allowed
    conflicting rows_clash document is_identifier matches_identifier is_alphanumeric
    is_name_character string_eq ℕ_discrete lookup insert
ended_found = refl

all_ended : (terminate_all the_runtimes the_readings running_table (codes "stop")).1 ≡ ok 1
unfolding terminate_all terminate_each recover_candidate recovery_candidates insert_candidate
    find_container end_container finish finalize_termination finalize_attempt final_row can_finalize
    request_termination request_attempt request_valid request_row can_request run_row new_row
    strip_spaces strip_left strip_right is_space update_row triggers_pass transition_allowed
    conflicting rows_clash document is_identifier matches_identifier is_alphanumeric
    is_name_character string_eq ℕ_discrete lookup insert
all_ended = refl

terminate_all_complete_example :
    (ended_row.status ≡ terminated)
    × ((lookup "w" running_table ≡ some ended_row) ⊎ Any (Ended the_runtimes "w") running_table)
terminate_all_complete_example =
    terminate_all_complete the_runtimes the_readings running_table (codes "stop") 1 all_ended "w"
      ended_row ended_found

-- A worker that failed with no container recorded.
abbrev lost_row : Row
lost_row = record launched { status = failed; version = 4 }

abbrev late_controller : Controller
late_controller = record the_controller { discover_owned = λ id. some (some "bbbbbbbbbbbb") }

abbrev lost_table : Table
lost_table = ("w", lost_row) ∷ []

lost_found : lookup "w" lost_table ≡ some lost_row
unfolding lookup string_eq
lost_found = refl

no_container : lost_row.container_id ≡ none
unfolding new_row
no_container = refl

recover_candidate-stuck_example :
    (e : RecoveryError) × (recover_candidate
        (λ name. some late_controller)
        lost_table
        ("w", lost_row)
        (codes "startup recovery")
        (some 11, some 12)
      ≡ (lost_table, err e))
recover_candidate-stuck_example =
    recover_candidate-stuck lost_table "w" lost_row (λ name. some late_controller) late_controller
      (codes "startup recovery") "bbbbbbbbbbbb" (some 11) (some 12) lost_found refl no_container
      refl refl

-- An attachment of the worker that runs.
abbrev the_attachment : Attachment
the_attachment = record {
  attachment_attestation_id = "t";
  runtime_version = 2;
  container_id = "aaaaaaaaaaaa";
  worker_gateway_network_id = "n";
  gateway_container_id = "cccccccccccc";
  status = attached;
  created_at = 10;
  updated_at = 10;
  failure_reason = none;
  version = 1;
}

abbrev the_store : Store
the_store = record {
  runtimes = running_table;
  attachments = ("w", the_attachment) ∷ [];
  recoveries = [];
}

abbrev the_times : Times
the_times id = record { failing = some 11; resolving = some 11; resolving_again = some 13 }

abbrev failed_attachment : Attachment
failed_attachment =
    moved Attachments.failed (some (codes "startup attachment recovery")) 11 the_attachment

resolved_test : (recover_all the_runtimes the_readings the_times the_store).1 ≡ ok 1
unfolding option_eq recover_all recover_each recover_attachment resolve resolve_recovery resolvable
    mark_failed transition may_become moved unresolved Attachments.recovery_candidates
    Attachments.insert_candidate Attachments.document terminate_worker recover_candidate
    recovery_candidates insert_candidate find_container end_container finish finalize_termination
    finalize_attempt final_row can_finalize request_termination request_attempt request_valid
    request_row can_request run_row new_row strip_spaces strip_left strip_right is_space update_row
    triggers_pass transition_allowed conflicting rows_clash document is_identifier
    matches_identifier is_alphanumeric is_name_character string_eq ℕ_discrete lookup insert
resolved_test = refl

attachment_found :
    lookup "w" (recover_all the_runtimes the_readings the_times the_store).0.attachments
    ≡ some failed_attachment
unfolding option_eq recover_all recover_each recover_attachment resolve resolve_recovery resolvable
    mark_failed transition may_become moved unresolved Attachments.recovery_candidates
    Attachments.insert_candidate Attachments.document terminate_worker recover_candidate
    recovery_candidates insert_candidate find_container end_container finish finalize_termination
    finalize_attempt final_row can_finalize request_termination request_attempt request_valid
    request_row can_request run_row new_row strip_spaces strip_left strip_right is_space update_row
    triggers_pass transition_allowed conflicting rows_clash document is_identifier
    matches_identifier is_alphanumeric is_name_character string_eq ℕ_discrete lookup insert
attachment_found = refl

recover_all-resolved_example :
    lookup "w" (recover_all the_runtimes the_readings the_times the_store).0.recoveries ≢ none
recover_all-resolved_example =
    recover_all-resolved the_runtimes the_readings the_times the_store 1 resolved_test "w"
      failed_attachment attachment_found

resolve_recovery_iff_example : (resolve_recovery the_store "w" 1 (some 11)).1 ≡ ok tt ↔ (
    ((is_identifier "w" ≡ true) × ((leb 1 1 ≡ true) × (◌≢◌ {A = Option ℕ} (some 11) none)))
    × ((lookup "w" the_store.recoveries ≡ none)
        × ((attachment : Attachment) × ((row : Row) × ((lookup "w" the_store.attachments
                  ≡ some attachment)
                × ((lookup "w" the_store.runtimes ≡ some row)
                    × ((attachment.version ≡ 1)
                        × ((attachment.status ≡ Attachments.failed)
                            × ((row.status ≡ terminated)
                                × (row.container_id ≡ some attachment.container_id))))))))))
resolve_recovery_iff_example = resolve_recovery_iff the_store "w" 1 (some 11)
