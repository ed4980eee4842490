-- ===== src/Log/Tests.antt =====
-- log/log_adapter.h: runs of a logger with one writer, and the theorems at them.

use vectro.Common.{◌≡◌, refl, true, none, some, false, ◌⊎◌, List, [], ◌∷◌, ◌++◌, arith}
use vectro.Log.{
  LogMessage, warning, to_string, calls, crashed, ended, start, Action, works, writes, registers,
  clears, limits, stops, step, run,
}
use vectro.Log.Order.{in_order, all_accepted, run-dispatched}
use vectro.Log.Drain.{ticks}
use vectro.Log.Teardown.Choice.{is_joining, unwind-choice}
use vectro.Log.Teardown.{
  joined, begin, acts, sets_shutdown_timeout, proceeds, advance, acts_all, unwind, unwind-flushes,
  Event, waiting, detached,
}

abbrev hello : LogMessage
hello = record {
  logger_id = "app";
  level = warning;
  timestamp = 5;
  thread_id = 1;
  message = "hello";
}

-- The writer logs one message.
abbrev one_message : List Action
one_message = writes 0 hello ∷ writes 0 hello ∷ writes 0 hello ∷ []

-- It has read the size and passed the first test.
abbrev one_start : List Action
one_start = writes 0 hello ∷ writes 0 hello ∷ []

-- A list of callbacks, one callback, one message, and the end.
abbrev whole_life : List Action
whole_life = clears ∷ registers 3 none ∷ one_message ++ stops ∷ []

called : (run (run (start 0 1) whole_life) (ticks 9 9)).output ≡ calls (some 3) hello ∷ []
unfolding run step
called = refl

-- Without `ClearCallbacks` the worker uses the null pointer at the first message.
crash : (run (start 0 1) (one_message ++ ticks 9 2)).worker ≡ crashed (hello ∷ [])
unfolding run step
crash = refl

-- The second test refuses what the first one let pass.
second_test : (run (start 0 1) (one_start ++ limits 0 ∷ writes 0 hello ∷ [])).dropped_messages ≡ 1
unfolding run step
second_test = refl

level_name : to_string hello.level ≡ "WARNING"
level_name = refl

run-dispatched_example : in_order (run (start 0 1) whole_life) ≡ all_accepted (start 0 1) whole_life
run-dispatched_example = run-dispatched 0 1 whole_life

-- The timeout passes before the worker has seen that it is to stop: it is detached, and its next step
-- uses a logger that is gone.
detached_use :
    (unwind
      (begin (start 0 1))
      (proceeds 0 ∷ proceeds 5000 ∷ proceeds 5001 ∷ acts (works 5002) ∷ [])).misused
    ≡ true
unfolding unwind advance
detached_use = refl

-- The worker finds nothing to dispatch, ends in time, and is joined.
abbrev joined_in_time : List Event
joined_in_time = acts clears ∷ acts_all (ticks 1 8) ++ proceeds 2 ∷ proceeds 3 ∷ []

unwind-choice_example :
    let t =
      unwind
        (advance (begin (start 0 1)) (sets_shutdown_timeout 10))
        (proceeds 0 ∷ joined_in_time) in
    let u = unwind t (proceeds 10 ∷ proceeds 11 ∷ []) in
    (t.misused ≡ false)
    × (((t.phase ≡ waiting 0) × (t.adapter.stopped ≡ false) × (u.phase ≡ detached))
        ⊎ ((t.adapter.stopped ≡ true) × (t.adapter.worker ≡ ended) × (is_joining u.phase ≡ true)))
unwind-choice_example =
    unwind-choice 10 0 10 11 (start 0 1) joined_in_time refl
      (tt, (tt, (tt, (tt, (tt, (tt, (tt, (tt, (tt, (omega arith, (omega arith, tt)))))))))))
      (omega arith)

unwind-flushes_example :
    (let t =
        unwind
          (advance (begin (run (start 0 1) (clears ∷ one_message))) (sets_shutdown_timeout 100))
          (proceeds 0 ∷ acts_all (ticks 9 9) ++ proceeds 200 ∷ proceeds 201 ∷ proceeds 202 ∷ []) in
      (t.phase ≡ joined) × (t.adapter.queue ≡ []) × (t.adapter.dispatched ≡ [] ++ hello ∷ []))
unfolding run step
unwind-flushes_example =
    unwind-flushes 100 0 9 9 200 201 202 [] (run (start 0 1) (clears ∷ one_message)) refl refl
      (omega arith)
