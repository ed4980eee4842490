-- ===== src/Log.antt =====
-- log/log_adapter.h: a logger that any number of threads write to and one worker reads from. A
-- writer and the worker are where they stand in the code; a step is one critical section of the
-- queue's lock, or one access outside it. Sleeps and the formatting of a line are not modelled, nor
-- an exception that an allocation throws. A callback is named by a number; what one throws is
-- swallowed.
pub mod Bound
pub mod Order
pub mod Drain
pub mod Silence
pub mod Teardown
pub mod Tests
use Prim.Native.String.{String}
use vectro.Common.{
  ℕ, ◌+◌, ◌%◌, ◌^◌, ◌≡◌, Bool, true, false, ◌&&◌, not, Option, none, some, List, [], ◌∷◌, ◌++◌, map,
  leb, nat_beq, if◌then◌else◌, length, get_elem?, set, max, is_empty, replicate,
}

pub data LogLevel : Type 0 where
  trace debug info notice warning error critical alert emergency : LogLevel

pub record LogMessage : Type 0 where
  pub logger_id : String
  pub level : LogLevel
  pub timestamp : ℕ
  pub thread_id : ℕ
  pub message : String

abbrev pub to_string : LogLevel → String
to_string trace = "TRACE"
to_string debug = "DEBUG"
to_string info = "INFO"
to_string notice = "NOTICE"
to_string warning = "WARNING"
to_string error = "ERROR"
to_string critical = "CRITICAL"
to_string alert = "ALERT"
to_string emergency = "EMERGENCY"

-- What the logger writes or calls. `reports` is the line about the dropped messages.
pub data Output : Type 0 where
  logs : LogMessage → Output
  calls : Option ℕ → LogMessage → Output
  reports : ℕ → Output

pub data Writer : Type 0 where
  idle : Writer
  -- Enqueue: the size of the queue has been read
  sized : LogMessage → (sz : ℕ) → Writer
  -- past the circuit breaker and the backoff
  entering : LogMessage → Writer

pub data Worker : Type 0 where
  at_loop : Worker
  -- with the rest of a batch, the last one or another
  dispatching : (final : Bool) → List LogMessage → Worker
  -- before HandleDrops
  reporting : (final : Bool) → Worker
  -- the loop has ended
  draining : Worker
  -- before `stopped_` is set
  stopping : Worker
  ended : Worker
  -- a null list of callbacks has been used, with these messages left
  crashed : List LogMessage → Worker

pub record LogAdapter : Type 0 where
  pub running : Bool
  pub stopped : Bool
  pub queue : List LogMessage
  pub max_queue_size : ℕ
  pub drop_notification_interval : ℕ
  pub dropped_messages : ℕ
  pub high_water_mark : ℕ
  -- `callbacks_`, with `none` for a null pointer; a moved-from callback may be `none`
  pub callbacks : Option (List (Option ℕ))
  pub last_drop_notification : ℕ
  pub writers : List Writer
  pub worker : Worker
  pub output : List Output
  -- the messages that `Dispatch` has handled
  pub dispatched : List LogMessage
  -- `RegisterCallback` has used a null pointer
  pub fault : Bool

-- The constructor at the time `now`, with `n` threads that may log.
abbrev pub start : (now n : ℕ) → LogAdapter
start now n = record {
  running = true;
  stopped = false;
  queue = [];
  max_queue_size = 10000;
  drop_notification_interval = 1000;
  dropped_messages = 0;
  high_water_mark = 0;
  callbacks = none;
  last_drop_notification = now;
  writers = replicate n idle;
  worker = at_loop;
  output = [];
  dispatched = [];
  fault = false;
}

-- The exchange succeeds at once, or after a failure, when the callback that has been moved away is
-- added: `again` is what the moved-from object holds.
register_callback : ℕ → Option (Option ℕ) → LogAdapter → LogAdapter
register_callback cb again s = elim s.callbacks [
  | none ↦ record s { fault = true }
  | some cbs ↦ elim again [
    | none ↦ record s { callbacks = some (cbs ++ some cb ∷ []) }
    | some left ↦ record s { callbacks = some (cbs ++ left ∷ []) }
  ]
]

abbrev clear_callbacks : LogAdapter → LogAdapter
clear_callbacks s = record s { callbacks = some [] }

abbrev drop_message : LogAdapter → LogAdapter
drop_message s = record s { dropped_messages = (s.dropped_messages + 1) % 2 ^ 64 }

-- A writer's step in `Enqueue`; it begins with the message `lm`.
pub enqueue : LogMessage → LogAdapter → Writer → LogAdapter × Writer
enqueue lm s idle = (s, sized lm (length s.queue))
enqueue _ s (sized lm sz) =
    if leb s.max_queue_size sz then (drop_message s, idle) else (s, entering lm)
enqueue _ s (entering lm) =
    if leb s.max_queue_size (length s.queue) then (drop_message s, idle) else (
      record s {
        queue = s.queue ++ lm ∷ [];
        high_water_mark = max s.high_water_mark (length (s.queue ++ lm ∷ []));
      },
      idle,
    )

-- `Dispatch` past the load of the callbacks
abbrev handle : List (Option ℕ) → LogMessage → List Output
handle cbs lm = if is_empty cbs then logs lm ∷ [] else map (λ (cb : Option ℕ). calls cb lm) cbs

-- `HandleDrops` at the time `now`
abbrev pub handle_drops : ℕ → LogAdapter → LogAdapter
handle_drops now s =
    if nat_beq s.dropped_messages 0
    then s
    else if leb (s.last_drop_notification + s.drop_notification_interval) now
    then record s {
      dropped_messages = 0;
      output = s.output ++ reports s.dropped_messages ∷ [];
      last_drop_notification = now;
    }
    else record s { dropped_messages = 0 }

-- The worker's step in `ProcessLoop`.
pub process : ℕ → LogAdapter → Worker → LogAdapter
process now s at_loop = elim s.queue [
  | [] ↦ record s { worker = if s.running then at_loop else draining }
  | lm ∷ rest ↦ record s { queue = []; worker = dispatching false (lm ∷ rest) }
]
process now s (dispatching final []) = record s { worker = reporting final }
process now s (dispatching final (lm ∷ rest)) = elim s.callbacks [
  | none ↦ record s { worker = crashed (lm ∷ rest) }
  | some cbs ↦ record s {
    output = s.output ++ handle cbs lm;
    dispatched = s.dispatched ++ lm ∷ [];
    worker = dispatching final rest;
  }
]
process now s (reporting final) = record (handle_drops now s) {
  worker = if final then stopping else at_loop;
}
process now s draining = record s { queue = []; worker = dispatching true s.queue }
process now s stopping = record s { stopped = true; worker = ended }
process now s ended = s
process now s (crashed left) = s

pub data Action : Type 0 where
  -- the writer at this place takes a step, with a message if it begins
  writes : (place : ℕ) → LogMessage → Action
  works : (now : ℕ) → Action
  registers : (cb : ℕ) → (again : Option (Option ℕ)) → Action
  clears : Action
  limits : (max : ℕ) → Action
  notifies_every : (interval : ℕ) → Action
  -- GetDroppedCount
  takes_dropped : Action
  -- the destructor clears `running_`
  stops : Action

pub step : LogAdapter → Action → LogAdapter
unfolding register_callback enqueue process
step s (writes place lm) = elim (get_elem? s.writers place) [
  | none ↦ s
  | some w ↦ let r = enqueue lm s w in record r.0 { writers = set s.writers place r.1 }
]
step s (works now) = process now s s.worker
step s (registers cb again) = register_callback cb again s
step s clears = clear_callbacks s
step s (limits n) = record s { max_queue_size = n }
step s (notifies_every interval) = record s { drop_notification_interval = interval }
step s takes_dropped = record s { dropped_messages = 0 }
step s stops = record s { running = false }

pub run : LogAdapter → List Action → LogAdapter
run s [] = s
run s (a ∷ actions) = run (step s a) actions
