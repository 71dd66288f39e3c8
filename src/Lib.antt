-- ===== src/Lib.antt =====
-- PentAI: the deterministic core of a penetration testing assistant that asks a policy before it acts.
-- This library models the parts of the Python packages packages/policy and services/core that decide,
-- account and contain, and proves what they promise.
--
-- The parts and the files that model them:
--
--   Policy        packages/policy/src/pentai_policy. `evaluate` (evaluator.py) decides whether an intent
--                 is allowed: Policy/Evaluator.antt has its checks in the order of the code, an early
--                 return of a denial and an uncaught ValueError being the two ways to stop. The rules'
--                 matchers are Policy/Matching.antt, path prefixes Policy/Paths.antt, testing windows and
--                 blackouts Policy/Schedule.antt, percent encoding (canonicalize.py) Policy/Percent.antt,
--                 and the documents' types Policy/Document.antt.
--   Budget        services/core/src/pentai_core. Budget/Provider.antt is `validate_provider_configuration`
--                 (ai_provider_config.py), Budget/Ledger.antt `AIBudgetLedger` (ai_budget.py): a call is
--                 a function from the ledger to the ledger and an answer. Budget/Ledger/Recovery.antt is
--                 `recover`.
--   Workers       services/core/src/pentai_core. Workers/Containment.antt is the evidence that a worker is
--                 contained (worker_containment.py), Workers/Registry.antt the table of the workers
--                 (worker_runtime_registry.py) over the constraints and triggers of its migrations
--                 (Workers/Registry/Schema.antt), Workers/Termination.antt the recovery that ends them
--                 (worker_runtime_recovery.py), Workers/Attachments.antt the table of their attachments
--                 to a gateway and its recovery (worker_attachment_registry.py,
--                 worker_attachment_recovery.py).
--   Supervision   services/core/src/pentai_core. The three watchdogs (network_safety_supervisor.py,
--                 worker_containment_supervisor.py, gateway_runtime_supervisor.py) as steps that interleave
--                 with the calls of `start` and `stop`, and the monitors that they run
--                 (Supervision/Monitors.antt).
--   Responses     services/core/src/pentai_core. Responses.antt is `read_bounded_response`
--                 (gateway_response.py), which reads a gateway's response up to a limit and a deadline.
--   ClockHealth   services/core/src/pentai_core. ClockHealth.antt is `ClockHealthMonitor`
--                 (clock_health.py), which compares the progress of two clocks; its floats are natural
--                 numbers of microseconds, so rounding is not modelled.
--   Audit         services/core/src/pentai_core. Audit.antt is `append_audit_event` (audit.py) over the
--                 table of the migrations, a chain of hashes.
--   Dns           services/core/src/pentai_core. Dns/Names.antt has the names of a DNS packet,
--                 `_build_query` and `_decode_name`, Dns/Message.antt `_parse_response`, Dns/Backend.antt
--                 `PinnedDnsBackend` (controlled_dns_transport.py), Dns/Resolver.antt `ControlledResolver`
--                 (controlled_dns.py), which checks what the backend answers.
--   NetworkControl  services/core/src/pentai_core. NetworkControl.antt is `validate_attestation`
--                 (network_control.py), NetworkControl/Hosts.antt its hosts and addresses,
--                 NetworkControl/Destination.antt `authorize_destination`, an exception being a value
--                 with the reasons so far.
--   Plans         services/core/src/pentai_core. `DurablePlanGraphService` (orchestration.py):
--                 Plans/Tasks.antt has the tasks of a plan, the trigger on their states
--                 (migrations/0075_terminal_consumption.sql), `_refresh_dependents` and `_plan_state`,
--                 Plans/Graph.antt `_validate_edges`, `_reject_cycles` and `_initial_states`,
--                 Plans/Service.antt `create`, `transition` and `recover`. What other services do to
--                 the tasks between the calls is a step of its own (Plans/Service/Reachable.antt).
--   Prelude       shared names: Boolean tests, equality by instances, lists over native numbers, results
--                 with errors, dicts as association lists, text as code points.
--   Tests         runs on concrete data.
--
-- They interact as follows. The evaluator reads a policy and an intent and keeps no state; the network
-- control asks it for the destination and for each name that leads there. The ledger validates its
-- configuration by Budget/Provider before each change. The recovery of the attachments calls the
-- recovery of the workers, which calls the registry. A supervisor calls its monitor and its callbacks,
-- which are what they answer.
--
-- Numbers are natural numbers: Python's integers are unbounded and none of these parts subtracts below
-- zero, but for the ages, lifetimes and elapsed times that are compared behind a test of the order.
-- Times are instants in microseconds; a timestamp is `none` where `parse_time` raises, and a clock where it has no time zone.
-- Loops run over lists, but for the decoder of DNS names, which has fuel for one label for each byte of
-- the packet and one more, renewed by each of at most sixteen jumps, and for the search for a cycle,
-- which has fuel for each task and one more round. The digits of a port have fuel for more digits than
-- a number of its size has.
--
-- What the source calls and does not contain is a parameter: the JSON schema validator (a Boolean, or a
-- function into one), hashes and UUIDs, the time zone database, URL canonicalization by urllib and idna,
-- the container runtime. A call of the clock is an argument for each reading. SQLite is modelled by the
-- tables as dicts and one function for each kind of statement, and a transaction is atomic.
--
-- Not modelled: policy documents and their compiler, authorization, workflow, the orchestration but for
-- its plans, findings and reports, evidence, gateway processes and their networks, storage, the HTTP
-- service, the desktop application. `snapshot` and `version` of the ledger only read.
pub mod Prelude
pub mod Dns
pub mod NetworkControl
pub mod Plans
pub mod Policy
pub mod Audit
pub mod Budget
pub mod Workers
pub mod Supervision
pub mod ClockHealth
pub mod Responses
pub mod Tests
