-- ===== src/Supervision.antt =====
-- The supervisors: three watchdogs that check a condition at intervals and pause the system when the
-- check fails. What they share: the snapshot that they publish, and the thread that runs `_watch`.
pub mod Network
pub mod Worker
pub mod Gateway
pub mod Monitors
use pent_ai.Prelude.{ℕ, Bool, true, false, Option, none, some, String, List, []}

pub data Status : Type 0 where
  stopped starting recovering ready degraded disabled : Status

abbrev pub is_degraded : Status → Bool
is_degraded degraded = true
is_degraded _ = false

abbrev pub is_stopped : Status → Bool
is_stopped stopped = true
is_stopped _ = false

-- `NetworkSafetySnapshot`, `WorkerContainmentSnapshot` and `SupervisorSnapshot`: `count` is the number
-- of monitored assessments, of monitored workers or of recovered instances.
pub record Snapshot : Type 0 where
  pub status : Status
  pub reason_code : Option String
  pub count : ℕ
  pub watchdog_running : Bool

-- Where the thread of the last `start` is: it waits for the interval to pass, it runs its check, it is
-- about to publish the result, or it has returned.
pub data Thread : Type 0 where
  absent waiting checking finished : Thread
  publishing : ℕ → Thread

abbrev pub is_alive : Thread → Bool
is_alive absent = false
is_alive finished = false
is_alive _ = true

-- A supervisor. `held` is whether `_thread` is set, `stop` the event, and `stopping` whether a call of
-- `stop` waits for the thread. `pauses` and `terminations` are the reasons that the callbacks were
-- called with. `start` and `stop` are called by one thread, that of the application's lifespan.
pub record Supervisor : Type 0 where
  pub snapshot : Snapshot
  pub held : Bool
  pub thread : Thread
  pub stop : Bool
  pub stopping : Bool
  pub pauses : List String
  pub terminations : List String

-- What `__init__` makes of each.
abbrev pub initial : Supervisor
initial = record {
  snapshot = record { status = stopped; reason_code = none; count = 0; watchdog_running = false };
  held = false;
  thread = absent;
  stop = false;
  stopping = false;
  pauses = [];
  terminations = [];
}
