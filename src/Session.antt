-- ===== src/Session.antt =====
-- session.h: one connection, with its reads, its two write paths, its timers and its shutdown. A
-- step is one handler, run to its end. `reading` and `in_flight` are the operations of asio that
-- have not completed; `read_wait` and `idle_wait` say whether the handler of a timer is waiting,
-- which a cancel or a new expiry ends, but not for one that is due already. The framer and the interceptor are objects of the program's
-- user: what they answer comes with the step. `executor_` runs what is dispatched at once.
pub mod Disconnect
pub mod Timers
pub mod Writes
pub mod Graceful
pub mod Closing
pub mod Framed
pub mod Tests
use Prim.Native.String.{String}
use vectro.Common.{
  ℕ, zero, suc, Bool, true, false, not, ◌&&◌, Option, none, some, List, [], ◌∷◌, ◌++◌,
  if◌then◌else◌, is_empty, map,
}
use vectro.Stream.WriteQueue.{Entry, Op, sends as enqueues, closes as shuts, completes}
use vectro.Stream.WriteQueue

-- What the session does to the outside.
pub data Event (B M : Type 0) : Type 0 where
  messages : M → Event B M
  disconnects : Event B M
  writes : B → Event B M

-- What `Start` is told of the connection.
pub record Peer : Type 0 where
  pub id : ℕ
  pub remote_ip : String
  pub remote_port : ℕ
  pub local_port : ℕ

pub record Session (B M : Type 0) : Type 0 where
  pub socket_open : Bool
  -- `framer_` is there
  pub framer : Bool
  pub write_deque : List B
  pub write_in_progress : Bool
  -- `write_queue_sg_` and the writes that it has outstanding
  pub write_queue : WriteQueue.System B
  pub use_write_queue : Bool
  pub shutdown_in_progress : Bool
  pub graceful_shutdown : Bool
  pub peer : Peer
  pub on_message : Bool
  pub on_disconnect : Bool
  -- whether `plugin_bundle_` has an interceptor, which is all that is read of it
  pub interceptor : Bool
  -- the reads that are outstanding: a second `Start` adds one
  pub reading : ℕ
  pub in_flight : List B
  pub read_wait : Bool
  pub idle_wait : Bool
  -- the handlers of waits that have expired, which no cancel takes back
  pub read_due : ℕ
  pub idle_due : ℕ
  pub trace : List (Event B M)
  -- a null framer has been used, or an exception has left a handler
  pub fault : Bool

module _ {B M : Type 0} where
  abbrev pub create : Session B M
  create = record {
    socket_open = true;
    framer = true;
    write_deque = [];
    write_in_progress = false;
    write_queue = WriteQueue.start 1024;
    use_write_queue = false;
    shutdown_in_progress = false;
    graceful_shutdown = false;
    peer = record { id = 0; remote_ip = ""; remote_port = 0; local_port = 0 };
    on_message = false;
    on_disconnect = false;
    interceptor = false;
    reading = 0;
    in_flight = [];
    read_wait = false;
    idle_wait = false;
    read_due = 0;
    idle_due = 0;
    trace = [];
    fault = false;
  }

  abbrev pub emit : List (Event B M) → Session B M → Session B M
  emit evs s = record s { trace = s.trace ++ evs }

  abbrev close_queue : Bool → Session B M → Session B M
  close_queue force s =
      if s.use_write_queue
      then record s { write_queue = WriteQueue.step s.write_queue (shuts force) }
      else s

  -- `Close(true)`, past the test of `shutdown_in_progress_`
  force_close : Session B M → Session B M
  force_close s =
      close_queue true
        (record s { shutdown_in_progress = true; socket_open = false; write_deque = [] })

  unfoldable pub close : Bool → Session B M → Session B M
  unfolding force_close
  close force s =
      if s.shutdown_in_progress
      then s
      else if force
      then force_close s
      else let t =
          close_queue false
            (record s { graceful_shutdown = true; read_wait = false; idle_wait = false }) in
        if not t.use_write_queue && (not t.write_in_progress && is_empty t.write_deque)
        then force_close t
        else t

  pub shutdown : Session B M → Session B M
  unfolding close
  shutdown s =
      if s.shutdown_in_progress
      then s
      else let t = close true (
          emit (if s.on_disconnect then disconnects ∷ [] else [])
            (record s { shutdown_in_progress = true })) in
        record (close_queue true (record t { write_deque = [] })) {
          framer = false;
          interceptor = false;
          on_message = false;
          on_disconnect = false;
        }

  pub start_read : Session B M → Session B M
  start_read s =
      if s.shutdown_in_progress
      then s
      else if s.framer
      then record s { reading = suc s.reading; read_wait = true }
      else record s { fault = true }

  pub start : Peer → Bool → Bool → Session B M → Session B M
  unfolding start_read
  start peer on_message on_disconnect s =
      let t =
        start_read
          (record s { peer = peer; on_message = on_message; on_disconnect = on_disconnect }) in
      record t { idle_wait = true }

  pub write_next : Session B M → Session B M
  unfolding close
  write_next s = elim s.write_deque [
    | [] ↦
        let t = record s { write_in_progress = false } in
        if t.graceful_shutdown then close true t else t
    | buffers ∷ rest ↦ emit (writes buffers ∷ []) (record s {
      write_in_progress = true;
      write_deque = rest;
      in_flight = s.in_flight ++ buffers ∷ [];
    })
  ]

  abbrev set_plugin_bundle : Bool → Session B M → Session B M
  set_plugin_bundle interceptor s = record s { interceptor = interceptor }

  abbrev enable_write_queue : Bool → Session B M → Session B M
  enable_write_queue enable s = record s { use_write_queue = enable }

  abbrev pub id : Session B M → ℕ
  id s = s.peer.id

  -- `passes` is the interceptor's answer, and `framed` the framer's, with `none` for an exception.
  pub async_send : Bool → Option B → Session B M → Session B M
  unfolding write_next
  async_send passes framed s =
      if s.interceptor && not passes
      then s
      else if not s.framer
      then record s { fault = true }
      else elim framed [
        | none ↦ s
        | some buffers ↦
            if s.use_write_queue
            then record s {
              write_queue =
                  WriteQueue.step s.write_queue
                    (enqueues (record { buffers = buffers; handler = some 0 }));
            }
            else let t = record s { write_deque = s.write_deque ++ buffers ∷ [] } in
              if t.write_in_progress then t else write_next t
      ]

  -- The handler of `async_read_some`; `msgs` is what the framer makes of the bytes, with `none` for
  -- an exception, which leaves the handler.
  pub on_read : Bool → Option (List M) → Session B M → Session B M
  unfolding start_read shutdown
  on_read failed msgs s =
      if s.shutdown_in_progress
      then s
      else if failed
      then shutdown s
      else let u = record s { read_wait = false; idle_wait = false } in
        elim msgs [
          | none ↦ record u { fault = true }
          | some ms ↦ start_read (emit (if u.on_message then map messages ms else []) u)
        ]

  -- The handlers of the two timers, called with no error.
  on_read_timeout : Session B M → Session B M
  unfolding shutdown
  on_read_timeout s = shutdown s

  on_idle_timeout : Session B M → Session B M
  unfolding shutdown
  on_idle_timeout s = shutdown s

  -- The handler of `async_write` on the direct path.
  pub on_written : Bool → Session B M → Session B M
  unfolding write_next shutdown
  on_written failed s =
      if failed then shutdown s else write_next (record s { write_in_progress = false })

pub data Action (B M : Type 0) : Type 0 where
  starts : Peer → (on_message on_disconnect : Bool) → Action B M
  sets_bundle : (interceptor : Bool) → Action B M
  enables : Bool → Action B M
  sends : (passes : Bool) → (framed : Option B) → Action B M
  closes : (force : Bool) → Action B M
  reads : (failed : Bool) → (msgs : Option (List M)) → Action B M
  -- a wait comes to its end, and its handler is due
  read_expires : Action B M
  idle_expires : Action B M
  -- a handler that is due runs
  read_times_out : Action B M
  idle_times_out : Action B M
  written : (failed : Bool) → Action B M
  queue_writes : (place : ℕ) → (failed : Bool) → Action B M

module _ {B M : Type 0} where
  -- A handler runs where what it waits for was begun.
  unfoldable pub step : Session B M → Action B M → Session B M
  unfolding close start async_send on_read on_read_timeout on_idle_timeout on_written
  step s (starts peer on_message on_disconnect) = start peer on_message on_disconnect s
  step s (sets_bundle interceptor) = set_plugin_bundle interceptor s
  step s (enables enable) = enable_write_queue enable s
  step s (sends passes framed) = async_send passes framed s
  step s (closes force) = close force s
  step s (reads failed msgs) = elim s.reading [
    | zero ↦ s
    | suc n ↦ on_read failed msgs (record s { reading = n })
  ]
  step s read_expires =
      if s.read_wait then record s { read_wait = false; read_due = suc s.read_due } else s
  step s idle_expires =
      if s.idle_wait then record s { idle_wait = false; idle_due = suc s.idle_due } else s
  step s read_times_out = elim s.read_due [
    | zero ↦ s
    | suc n ↦ on_read_timeout (record s { read_due = n })
  ]
  step s idle_times_out = elim s.idle_due [
    | zero ↦ s
    | suc n ↦ on_idle_timeout (record s { idle_due = n })
  ]
  step s (written failed) = elim s.in_flight [
    | [] ↦ s
    | _ ∷ rest ↦ on_written failed (record s { in_flight = rest })
  ]
  step s (queue_writes place failed) = record s {
    write_queue = WriteQueue.step s.write_queue (completes place failed);
  }

  unfoldable pub run : Session B M → List (Action B M) → Session B M
  run s [] = s
  run s (a ∷ actions) = run (step s a) actions
