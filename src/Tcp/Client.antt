-- ===== src/Tcp/Client.antt =====
-- tcp/tcp_client.h: a client connection, with the requests that wait for a response. A step is one
-- handler, run to its end. A response handler is an `Option`, with `none` for an empty function, and
-- is named by a number; a message is its correlation id and its content. `timers` holds the ids of
-- the requests whose timer waits. The framer is an object of the program's user: what it answers
-- comes with the step, and the answer that it makes of a message to send is the message's buffers.
pub mod Keeps
pub mod Requests
pub mod Closing
pub mod Counted
pub mod Pending
pub mod Construction
pub mod Tests
use vectro.Common.{
  without, ℕ, zero, suc, ◌+◌, ◌-◌, ◌%◌, ◌^◌, Bool, true, false, not, Option, none, some, List, [],
  ◌∷◌, ◌++◌, if◌then◌else◌, get_elem?, nat_key,
}
use vectro.HashMap.{HashMap}
use vectro.Stream.WriteQueue.{Entry, sends as enqueues, closes as shuts, completes}
use vectro.Stream.WriteQueue

pub data Event (M : Type 0) : Type 0 where
  connects : (success : Bool) → Event M
  cancels : Event M
  messages : M → Event M
  -- the handler `cb` of the request `cid` is called with a message, or with `timed_out`
  responds : (cid cb : ℕ) → Option M → Event M
  disconnects : Event M

pub record MetricsSnapshot : Type 0 where
  pub pending_requests : ℕ
  pub queued_writes : ℕ

pub data Action (B M : Type 0) : Type 0 where
  opens : (on_connect : Bool) → Action B M
  connect_times_out : Action B M
  resolved : (failed : Bool) → Action B M
  connected : (failed : Bool) → Action B M
  shaken : (failed : Bool) → Action B M
  sends : B → Action B M
  requests : B → Option ℕ → Action B M
  -- the timer at this place of `timers` ends
  request_times_out : (place : ℕ) → Action B M
  reads : (failed : Bool) → Option (List (ℕ × M)) → Action B M
  read_times_out : Action B M
  idle_times_out : Action B M
  closes : (force : Bool) → Action B M
  handles : (on_message on_disconnect : Bool) → Action B M
  queue_writes : (place : ℕ) → (failed : Bool) → Action B M

module _ (hm : HashMap ℕ (Option ℕ)) where
  open hm use {Map, empty, find, emplace, erase}

  pub record TcpClient (B M : Type 0) : Type 0 where
    -- the stream is a TLS stream
    pub tls : Bool
    pub socket_open : Bool
    pub write_queue : WriteQueue.System B
    -- the operations that have not completed
    pub resolving : Bool
    pub connecting : Bool
    pub handshaking : Bool
    pub reading : Bool
    -- the timers whose handler waits
    pub connect_wait : Bool
    pub read_wait : Bool
    pub idle_wait : Bool
    pub timers : List ℕ
    pub next_correlation_id : ℕ
    pub pending_requests : ℕ
    pub pending_responses : Map
    pub on_message : Bool
    pub on_connect : Bool
    pub on_disconnect : Bool
    pub shutdown : Bool
    pub events : List (Event M)
    -- an exception has left a handler
    pub fault : Bool

  module _ {B M : Type 0} where
    abbrev pub create : Bool → ℕ → TcpClient B M
    create tls max_queue_size = record {
      tls = tls;
      socket_open = true;
      write_queue = WriteQueue.start max_queue_size;
      resolving = false;
      connecting = false;
      handshaking = false;
      reading = false;
      connect_wait = false;
      read_wait = false;
      idle_wait = false;
      timers = [];
      next_correlation_id = 1;
      pending_requests = 0;
      pending_responses = empty;
      on_message = false;
      on_connect = false;
      on_disconnect = false;
      shutdown = false;
      events = [];
      fault = false;
    }

    abbrev pub emit : Bool → Event M → TcpClient B M → TcpClient B M
    emit handled ev s = if handled then record s { events = s.events ++ ev ∷ [] } else s

    -- `Connect`
    abbrev pub connect : Bool → TcpClient B M → TcpClient B M
    connect on_connect s = record s {
      on_connect = on_connect;
      connect_wait = true;
      resolving = true;
    }

    abbrev on_connect_timeout : TcpClient B M → TcpClient B M
    on_connect_timeout s = record s { connect_wait = false; events = s.events ++ cancels ∷ [] }

    pub start_read : TcpClient B M → TcpClient B M
    start_read s =
        if s.shutdown then s else record s { reading = true; read_wait = true; idle_wait = true }

    pub on_resolved : Bool → TcpClient B M → TcpClient B M
    on_resolved failed s =
        let t = record s { resolving = false; connect_wait = false } in
        if failed then emit t.on_connect (connects false) t else record t { connecting = true }

    pub on_connected : Bool → TcpClient B M → TcpClient B M
    unfolding start_read
    on_connected failed s =
        let t = record s { connecting = false } in
        if failed
        then emit t.on_connect (connects false) t
        else if t.tls
        then record t { handshaking = true }
        else start_read (emit t.on_connect (connects true) t)

    pub on_handshake : Bool → TcpClient B M → TcpClient B M
    unfolding start_read
    on_handshake failed s =
        let t = record s { handshaking = false } in
        let u = emit t.on_connect (connects (not failed)) t in if failed then u else start_read u

    abbrev pub send : B → TcpClient B M → TcpClient B M
    send buffers s = record s {
      write_queue =
          WriteQueue.step s.write_queue (enqueues (record { buffers = buffers; handler = some 0 }));
    }

    abbrev pub send_request : B → Option ℕ → TcpClient B M → TcpClient B M
    send_request request on_response s =
        let cid = s.next_correlation_id in
        let t = send request (record s {
          next_correlation_id = (cid + 1) % 2 ^ 64;
          pending_responses = emplace cid on_response s.pending_responses;
          pending_requests = (s.pending_requests + 1) % 2 ^ 64;
        }) in
        record t { timers = t.timers ++ cid ∷ [] }

    abbrev less_pending : TcpClient B M → TcpClient B M
    less_pending s = record s { pending_requests = (s.pending_requests + (2 ^ 64 - 1)) % 2 ^ 64 }

    -- The handler of the timer of the request `cid`.
    pub on_request_timeout : ℕ → TcpClient B M → TcpClient B M
    on_request_timeout cid s = elim (find cid s.pending_responses) [
      | none ↦ s
      | some cb ↦
          let t = less_pending (record s { pending_responses = erase cid s.pending_responses }) in
          elim cb [ none ↦ t | some h ↦ emit true (responds cid h none) t ]
    ]

    pub close : Bool → TcpClient B M → TcpClient B M
    close force s = emit s.on_disconnect disconnects (record s {
      shutdown = true;
      socket_open = if force then false else s.socket_open;
      write_queue = WriteQueue.step s.write_queue (shuts force);
      connect_wait = false;
      read_wait = false;
      idle_wait = false;
    })

    -- One message of a read.
    pub deliver : ℕ × M → TcpClient B M → TcpClient B M
    deliver (cid, m) s = elim (find cid s.pending_responses) [
      | none ↦ emit s.on_message (messages m) s
      | some cb ↦
          let t = record s { pending_responses = erase cid s.pending_responses } in
          elim cb [
            | none ↦ emit t.on_message (messages m) t
            | some h ↦ emit true (responds cid h (some m)) (less_pending t)
          ]
    ]

    pub deliver_all : List (ℕ × M) → TcpClient B M → TcpClient B M
    unfolding deliver
    deliver_all [] s = s
    deliver_all (m ∷ ms) s = deliver_all ms (deliver m s)

    -- The handler of `async_read_some`; `msgs` is what the framer makes of the bytes, with `none` for
    -- an exception, which leaves the handler.
    pub on_read : Bool → Option (List (ℕ × M)) → TcpClient B M → TcpClient B M
    unfolding close start_read deliver_all
    on_read true msgs s = close true (record s { reading = false })
    on_read false none s = record s {
      reading = false;
      read_wait = false;
      idle_wait = false;
      fault = true;
    }
    on_read false (some ms) s =
        start_read
          (deliver_all ms (record s { reading = false; read_wait = false; idle_wait = false }))

  module _ {B M : Type 0} where
    -- A handler runs where what it waits for was begun.
    pub step : TcpClient B M → Action B M → TcpClient B M
    unfolding on_resolved on_connected on_handshake on_request_timeout on_read close
    step s (opens on_connect) = connect on_connect s
    step s connect_times_out = if s.connect_wait then on_connect_timeout s else s
    step s (resolved failed) = if s.resolving then on_resolved failed s else s
    step s (connected failed) = if s.connecting then on_connected failed s else s
    step s (shaken failed) = if s.handshaking then on_handshake failed s else s
    step s (sends buffers) = send buffers s
    step s (requests buffers on_response) = send_request buffers on_response s
    step s (request_times_out place) = elim (get_elem? s.timers place) [
      | none ↦ s
      | some cid ↦ on_request_timeout cid (record s { timers = without place s.timers })
    ]
    step s (reads failed msgs) = if s.reading then on_read failed msgs s else s
    step s read_times_out = if s.read_wait then close true (record s { read_wait = false }) else s
    step s idle_times_out = if s.idle_wait then close true (record s { idle_wait = false }) else s
    step s (closes force) = close force s
    step s (handles on_message on_disconnect) = record s {
      on_message = on_message;
      on_disconnect = on_disconnect;
    }
    step s (queue_writes place failed) = record s {
      write_queue = WriteQueue.step s.write_queue (completes place failed);
    }

    pub run : TcpClient B M → List (Action B M) → TcpClient B M
    run s [] = s
    run s (a ∷ actions) = run (step s a) actions

    -- `queued_writes` keeps the 0 of a new snapshot.
    abbrev pub snapshot_metrics : TcpClient B M → MetricsSnapshot
    snapshot_metrics s = record { pending_requests = s.pending_requests; queued_writes = 0 }
