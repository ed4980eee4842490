-- ===== src/Stream/WriteQueue.antt =====
-- stream/write_queue_sg.h: the queue of writes to one stream. The strand runs the handlers one at a
-- time, so each is one step. asio itself is the environment: `in_flight` holds the writes that
-- `async_write` has been called with and that have not completed, and `completes` is the completion
-- of one of them. A write's buffers are of any type `B`; a completion handler is named by a number.
-- A handler that calls back into the queue is a further step.
pub mod Order
pub mod Drain
pub mod Failures
pub mod Tests
use vectro.Common.{
  without, ℕ, zero, suc, Bool, true, false, not, ◌&&◌, Option, none, some, List, [], ◌∷◌, ◌++◌, leb,
  if◌then◌else◌, length, get_elem?,
}

pub record Entry (B : Type 0) : Type 0 where
  pub buffers : B
  pub handler : Option ℕ

pub record WriteQueue (B : Type 0) : Type 0 where
  pub write_queue : List (Entry B)
  pub max_queue_size : ℕ
  pub max_queue_enabled : Bool
  pub writing : Bool
  pub graceful_shutdown : Bool

-- What a handler does to the outside.
pub data Event (B : Type 0) : Type 0 where
  starts : Entry B → Event B
  calls : ℕ → Bool → Event B
  cancels : Event B

-- `if (handler) handler(success)`
abbrev pub notify : {B : Type 0} → Option ℕ → Bool → List (Event B)
notify none success = []
notify (some h) success = calls h success ∷ []

module _ {B : Type 0} where
  abbrev pub create : ℕ → WriteQueue B
  create max_queue = record {
    write_queue = [];
    max_queue_size = max_queue;
    max_queue_enabled = true;
    writing = false;
    graceful_shutdown = false;
  }

  enable_max_queue : Bool → WriteQueue B → WriteQueue B
  enable_max_queue enable q = record q { max_queue_enabled = enable }

  pub do_write : WriteQueue B → WriteQueue B × List (Event B)
  do_write q = elim q.write_queue [
    | [] ↦ (
      record q { writing = false; write_queue = if q.graceful_shutdown then [] else q.write_queue },
      [],
    )
    | e ∷ rest ↦ (record q { writing = true; write_queue = rest }, starts e ∷ [])
  ]

  -- Backpressure refuses the write.
  abbrev pub is_full : WriteQueue B → Bool
  is_full q = q.max_queue_enabled && leb q.max_queue_size (length q.write_queue)

  abbrev pub enqueue : Entry B → WriteQueue B → WriteQueue B
  enqueue e q = record q { write_queue = q.write_queue ++ e ∷ [] }

  pub async_send : Entry B → WriteQueue B → WriteQueue B × List (Event B)
  unfolding do_write
  async_send e q =
      if is_full q
      then (q, notify e.handler false)
      else if q.writing
      then (enqueue e q, [])
      else do_write (enqueue e q)

  pub close : Bool → WriteQueue B → WriteQueue B × List (Event B)
  close true q = (record q { write_queue = []; writing = false }, cancels ∷ [])
  close false q = (record q { graceful_shutdown = true }, [])

  -- The completion handler of `async_write`, for the write `e`.
  pub on_written : Entry B → Bool → WriteQueue B → WriteQueue B × List (Event B)
  unfolding do_write
  on_written e failed q =
      if failed
      then (record q { write_queue = [] }, notify e.handler (not failed))
      else let (q', evs) = do_write q in (q', notify e.handler (not failed) ++ evs)

-- A queue with its stream.
pub record System (B : Type 0) : Type 0 where
  pub queue : WriteQueue B
  pub in_flight : List (Entry B)
  pub trace : List (Event B)

pub data Op (B : Type 0) : Type 0 where
  enables : Bool → Op B
  sends : Entry B → Op B
  closes : Bool → Op B
  -- the write at this place of `in_flight` ends, with an error or without
  completes : (place : ℕ) → (failed : Bool) → Op B

module _ {B : Type 0} where
  abbrev pub started : List (Event B) → List (Entry B)
  started [] = []
  started (starts e ∷ evs) = e ∷ started evs
  started (calls h success ∷ evs) = started evs
  started (cancels ∷ evs) = started evs

  abbrev pub perform : WriteQueue B × List (Event B) → System B → System B
  perform (q, evs) s = record {
    queue = q;
    in_flight = s.in_flight ++ started evs;
    trace = s.trace ++ evs;
  }

  pub step : System B → Op B → System B
  unfolding enable_max_queue async_send close on_written
  step s (enables enable) = record s { queue = enable_max_queue enable s.queue }
  step s (sends e) = perform (async_send e s.queue) s
  step s (closes force) = perform (close force s.queue) s
  step s (completes place failed) = elim (get_elem? s.in_flight place) [
    | none ↦ s
    | some e ↦
        perform (on_written e failed s.queue) (record s { in_flight = without place s.in_flight })
  ]

  pub run : System B → List (Op B) → System B
  run s [] = s
  run s (op ∷ ops) = run (step s op) ops

  abbrev pub start : ℕ → System B
  start max_queue = record { queue = create max_queue; in_flight = []; trace = [] }
