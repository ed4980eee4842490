-- ===== src/Session/Tests.antt =====
-- session.h: runs of one session, and its theorems at them.
use vectro.Common.{
  ℕ, ◌+◌, map, ◌≤◌, arith, replicate, length, ◌≡◌, refl, true, false, some, List, [], ◌∷◌,
}
use vectro.Session.{
  messages, Peer, Session, create, close, shutdown, on_read, Action, starts, sends, closes, reads,
  read_expires, idle_expires, read_times_out, idle_times_out, written, sets_bundle, step, run,
}
use vectro.Session.Disconnect.{disconnections, run-disconnections, shutdown-run}
use vectro.Session.Writes.{handed, accepted, run-in_flight, run-accepted}
use vectro.Session.Framed.{
  Connection, IsReading, chunks_of, lines_of, receive_all, receive_all-trace,
}
use vectro.Frame.LineFramer.Scan.{line}
use vectro.Session.Graceful.{run-close}
use vectro.Session.Timers.{on_read-idle_wait}

abbrev peer : Peer
peer = record { id = 7; remote_ip = "10.0.0.1"; remote_port = 40000; local_port = 9000 }

-- Buffers and messages are numbers.
abbrev fresh : Session ℕ ℕ
fresh = create

abbrev started : Session ℕ ℕ
started = run fresh (starts peer true true ∷ [])

abbrev traffic : List (Action ℕ ℕ)
traffic =
    sends true (some 5)
    ∷ reads false (some (1 ∷ 2 ∷ []))
    ∷ written false
    ∷ read_expires
    ∷ read_times_out
    ∷ closes true
    ∷ idle_times_out
    ∷ []

-- The read times out: the handler is called, and the socket stays open.
read_timeout_run :
    (disconnections (run started traffic) ≡ 1) × ((run started traffic).socket_open ≡ true)
unfolding run step
read_timeout_run = (refl, refl)

-- A graceful close on the direct path drains and closes.
graceful_run :
    (run started (sends true (some 5) ∷ closes false ∷ written false ∷ [])).socket_open ≡ false
unfolding run step
graceful_run = refl

run-disconnections_example : disconnections (run fresh (starts peer true true ∷ traffic)) ≤ 1
run-disconnections_example = run-disconnections (starts peer true true ∷ traffic)

shutdown-run_example :
    ((run (shutdown started) (closes true ∷ [])).socket_open ≡ started.socket_open)
    × ((run (shutdown started) (closes true ∷ [])).shutdown_in_progress ≡ true)
unfolding run step
shutdown-run_example = shutdown-run started (closes true ∷ []) refl

on_read-idle_wait_example :
    ((run
        (on_read false (some (1 ∷ [])) started)
        (idle_expires ∷ reads false (some []) ∷ [])).idle_wait
      ≡ false)
    × ((run
          (on_read false (some (1 ∷ [])) started)
          (idle_expires ∷ reads false (some []) ∷ [])).idle_due
        ≤ started.idle_due)
unfolding run step
on_read-idle_wait_example =
    on_read-idle_wait started (some (1 ∷ [])) (idle_expires ∷ reads false (some []) ∷ []) refl
      (tt, (tt, tt))

-- A wait that has expired before the read still shuts the session down.
late_idle_run :
    (run started (idle_expires ∷ reads false (some []) ∷ idle_times_out ∷ [])).shutdown_in_progress
    ≡ true
unfolding run step
late_idle_run = refl

-- Three sends, of which the interceptor drops the second.
abbrev three_sends : List (Action ℕ ℕ)
three_sends =
    starts peer true true
    ∷ sets_bundle true
    ∷ sends true (some 5)
    ∷ sends false (some 6)
    ∷ sends true (some 7)
    ∷ []

accepted_run : accepted fresh three_sends ≡ 5 ∷ 7 ∷ []
unfolding run step
accepted_run = refl

run-in_flight_example : length (run fresh three_sends).in_flight ≤ 1
run-in_flight_example = run-in_flight three_sends

run-accepted_example :
    handed (run (run fresh three_sends) (replicate 2 (written false))).trace
    ≡ accepted fresh three_sends
unfolding run step
run-accepted_example = run-accepted three_sends 2 refl (omega arith)

run-close_example :
    ((run (close false (run fresh three_sends)) (replicate 2 (written false))).socket_open ≡ false)
    × (handed (run (close false (run fresh three_sends)) (replicate 2 (written false))).trace
        ≡ accepted fresh three_sends)
unfolding run step
run-close_example = run-close three_sends 2 refl refl (omega arith)

-- Two chunks, of two lines and of one.
abbrev lines : List (List (List ℕ))
lines = ((97 ∷ 98 ∷ []) ∷ (99 ∷ []) ∷ []) ∷ ((100 ∷ []) ∷ []) ∷ []

abbrev zeros : ℕ → List ℕ
zeros n = replicate n 0

abbrev ptr : ℕ → ℕ
ptr n = n + 1

abbrev connection : Connection ℕ
connection = record {
  session = run create (starts peer true true ∷ []);
  framer = record { scratch = zeros 1024; write_pos = 0 };
}

receive_all-trace_example :
    (let d = receive_all zeros ptr (chunks_of lines) connection in
      IsReading d.session × (d.session.trace ≡ map messages (map (line ptr) (lines_of lines))))
unfolding run step
receive_all-trace_example =
    receive_all-trace zeros ptr lines 1024 connection
      (record { open_ = refl; framed = refl; handled = refl; reading = omega arith; sound = refl })
      (record { start = refl; room = omega arith; size = omega arith }) refl
      (
        (
          (
            (λ e. cc),
            ((λ e. omega arith), ((λ e. omega arith), tt)),
            ((λ e. cc), ((λ e. omega arith), tt), tt),
          ),
          omega arith,
        ),
        ((((λ e. cc), ((λ e. omega arith), tt), tt), omega arith), tt),
      )
