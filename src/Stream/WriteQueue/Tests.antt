-- ===== src/Stream/WriteQueue/Tests.antt =====
-- stream/write_queue_sg.h: runs of a queue, and the theorems at them.
use vectro.Common.{ℕ, ◌≡◌, refl, true, false, some, List, [], ◌∷◌, ◌++◌}
use vectro.Stream.WriteQueue.{
  Entry, Event, calls, System, Op, sends, completes, started, step, run, start,
}
use vectro.Stream.WriteQueue.Order.{Inv, in_order, all_accepted, run-Inv, run-in_order}
use vectro.Stream.WriteQueue.Drain.{successes, run-successes}
use vectro.Stream.WriteQueue.Failures.{failed_write_stops}

-- Buffers are numbers, and a handler has the number of its buffer.
abbrev entry : ℕ → Entry ℕ
entry n = record { buffers = n; handler = some n }

abbrev three : List (Op ℕ)
three = sends (entry 1) ∷ sends (entry 2) ∷ sends (entry 3) ∷ []

-- The first write has begun, and two wait.
abbrev busy : System ℕ
busy = record {
  queue = record {
    write_queue = entry 2 ∷ entry 3 ∷ [];
    max_queue_size = 2;
    max_queue_enabled = true;
    writing = true;
    graceful_shutdown = false;
  };
  in_flight = entry 1 ∷ [];
  trace = Event.starts (entry 1) ∷ [];
}

busy_run : run (start 2) three ≡ busy
unfolding run step
busy_run = refl

-- A fourth write is refused.
fourth_refused :
    (run (start 2) (three ++ sends (entry 4) ∷ [])).trace
    ≡ Event.starts (entry 1) ∷ calls 4 false ∷ []
unfolding run step
fourth_refused = refl

run-Inv_example : Inv (run (start 2) three)
run-Inv_example = run-Inv 2 three (tt, (tt, (tt, tt)))

run-in_order_example :
    in_order (run (start 2) (three ++ completes 0 false ∷ []))
    ≡ all_accepted (start 2) (three ++ completes 0 false ∷ [])
run-in_order_example = run-in_order 2 (three ++ completes 0 false ∷ []) (tt, (tt, (tt, (tt, tt))))

run-successes_example :
    ((run busy (successes 3)).queue.write_queue ≡ [])
    × ((run busy (successes 3)).queue.writing ≡ false)
    × ((run busy (successes 3)).in_flight ≡ [])
    × (started (run busy (successes 3)).trace ≡ entry 1 ∷ entry 2 ∷ entry 3 ∷ [])
run-successes_example = run-successes (entry 2 ∷ entry 3 ∷ []) busy (entry 1) refl refl

failed_write_stops_example :
    ((step busy (completes 0 true)).queue.write_queue ≡ [])
    × ((step busy (completes 0 true)).trace ≡ busy.trace ++ calls 1 false ∷ [])
    × (started (run (step busy (completes 0 true)) three).trace ≡ started busy.trace)
    × ((run (step busy (completes 0 true)) three).queue.writing ≡ true)
failed_write_stops_example = failed_write_stops busy (entry 1) three refl refl (tt, (tt, (tt, tt)))
