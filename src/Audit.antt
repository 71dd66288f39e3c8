-- ===== src/Audit.antt =====
-- audit.py: `append_audit_event`, over the table `audit_events` with its constraints and triggers
-- (migrations 0001_initial.sql and 0020_audit_execution_traces.sql). The newest row comes first.
pub mod Chain
use pent_ai.Prelude.{
  Bool, true, false, not, ◌&&◌, ◌||◌, Option, none, some, String, ◌==◌, string_eq, nat_eq,
  if◌then◌else◌, List, [], ◌∷◌, any, length, codes,
}

-- An event; `details` is its `data`, a value or its JSON text.
pub record Event (D : Type 0) : Type 0 where
  pub event_id : String
  pub occurred_at : String
  pub actor_type : String
  pub actor_id : String
  pub action : String
  pub subject_type : String
  pub subject_id : String
  pub details : D
  pub previous_hash : Option String

pub record Row : Type 0 where
  pub columns : Event String
  pub event_hash : String

abbrev pub Log : Type 0
Log = List Row

-- The query of the last hash
abbrev pub head_hash : Log → Option String
head_hash [] = none
head_hash (row ∷ log) = some row.event_hash

abbrev pub is_head : Option String → Option String → Bool
is_head none none = true
is_head (some a) (some b) = a == b
is_head _ _ = false

-- The unique columns
unfoldable pub repeats : Row → Row → Bool
repeats row other =
    row.columns.event_id == other.columns.event_id || row.event_hash == other.event_hash

-- The insertion, `none` where a constraint or the trigger `audit_events_chain_guard` refuses it
unfoldable pub insert_event : Row → Log → Option Log
insert_event row log =
    if (length (codes row.event_hash) == 64)
      && (is_head row.columns.previous_hash (head_hash log) && not (any (repeats row) log))
    then some (row ∷ log)
    else none

-- The columns of an event
unfoldable pub row_of : {D : Type 0} → (D → String) → (Event D → String) → Event D → Row
row_of canonical_json content_hash event = record {
  columns = record {
    event_id = event.event_id;
    occurred_at = event.occurred_at;
    actor_type = event.actor_type;
    actor_id = event.actor_id;
    action = event.action;
    subject_type = event.subject_type;
    subject_id = event.subject_id;
    details = canonical_json event.details;
    previous_hash = event.previous_hash;
  };
  event_hash = content_hash event;
}

-- `append_audit_event`; `call` is an event the previous hash of which is still to be set.
unfoldable pub append_audit_event :
    {D : Type 0} → (D → String) → (Event D → String) → Event D → Log → Option Log
append_audit_event canonical_json content_hash call log =
    let event : Event _ = record {
      event_id = call.event_id;
      occurred_at = call.occurred_at;
      actor_type = call.actor_type;
      actor_id = call.actor_id;
      action = call.action;
      subject_type = call.subject_type;
      subject_id = call.subject_id;
      details = call.details;
      previous_hash = head_hash log;
    } in
    insert_event (row_of canonical_json content_hash event) log
