-- ===== src/Pool/Tests.antt =====
-- pool/task_multi_processor.h: runs of a small pool, and its theorems at them.
use vectro.Common.{
  nat_key, length, get_elem?, ℕ, zero, suc, ◌+◌, ◌-◌, ◌≤◌, ◌≡◌, refl, Bool, true, false, none,
  Option, some, ◌⊎◌, List, [], ◌∷◌, All, ◌++◌, total, arith,
}
use vectro.Pool.{
  fifo, round_robin, TaskProcessorConfig, TaskItem, word, waiting, ended, Call, registered, wrapped,
}
use vectro.Pool.Exits.{run-ended}
use vectro.Pool.OwnCalls.{own_calls, own_of, weight}
use vectro.Pool.Callbacks.{register_all, under_lock, one_by_one, run-calls}
use vectro.Pool.System.{System, Action, submits, goes, moves, stops, step, run, start}
use vectro.Pool.Counts.{queued, IsCounted, run-IsCounted}
use vectro.Pool.Tasks.{content, run_refused, run_submitted, run-content}
use vectro.Pool.Bound.{run-bounded}
use vectro.Pool.Drops.{known_drops, run-known_drops}
use vectro.Pool.Shutdown.{may_take}
use vectro.Pool.Takes.{takes, takes_stopped}
use vectro.Pool.Indices.{IsInRange, default-ChoosesInRange, run-IsInRange}
use vectro.Pool.Fifo.{in_order, run_pushes, run-pushes}
use vectro.Pool.Futures.{
  unset, value, exception, canceled_before_enqueue, submit_with_result, readings, promise, is_named,
  IsOutcome,
}
use vectro.Pool.Futures.Outcomes.{run-promise}
use vectro.Pool.Teardown.{
  call_final, are_joined, Event, acts, sets_final, proceeds, advance, unwind, begin,
}
use vectro.Pool.Teardown.Joined.{unwind-counting}

abbrev small : TaskProcessorConfig
small = record {
  num_threads = 2;
  mode = round_robin;
  steal_policy = none;
  max_queue_size = 2;
  backpressure_threshold = 1;
  drop_notification_interval = 10;
  shutdown_timeout = 5000;
  enable_circuit_breaker = true;
  enable_backoff = true;
  bind_threads = false;
  enable_drain_on_shutdown = true;
}

abbrev task : ℕ → TaskItem ℕ
task n = record { payload = n; wrappers = [] }

abbrev repeat : ℕ → ℕ → List (Action ℕ)
repeat place zero = []
repeat place (suc n) = moves place (goes 0) ∷ repeat place n

-- Thread 2 submits task 7 and is done; thread 3 submits task 8 and stops before it counts it.
abbrev two_submits : List (Action ℕ)
two_submits = (moves 2 (submits (task 7)) ∷ repeat 2 4) ++ moves 3 (submits (task 8)) ∷ repeat 3 3

-- Both workers see the one counted task, take one each and count it off.
abbrev race : List (Action ℕ)
race = two_submits ++ repeat 0 2 ++ repeat 1 2 ++ repeat 0 2 ++ repeat 1 2

-- The count of the queued tasks runs below 0.
race_wraps : (run (start small 0 2) race).pool.tasks_in_queue ≡ word - 1
unfolding run step
race_wraps = refl

-- Then the next task is refused, while the queues are empty.
race_refuses :
    run_refused (start small 0 2) (race ++ moves 2 (submits (task 9)) ∷ repeat 2 1) ≡ task 9 ∷ []
unfolding run step
race_refuses = refl

run-IsCounted_example : IsCounted (run (start small 0 2) race)
run-IsCounted_example = run-IsCounted small 0 2 race

run-content_example :
    content (λ t. t.payload) (run (start small 0 2) race)
      + total (λ (t : TaskItem ℕ). t.payload) (run_refused (start small 0 2) race)
    ≡ total (λ (t : TaskItem ℕ). t.payload) (run_submitted (start small 0 2) race)
run-content_example = run-content (λ t. t.payload) small 0 2 race

run-bounded_example : queued (run (start small 0 2) two_submits).pool + 1 ≤ 4
run-bounded_example =
    run-bounded small 0 2 two_submits refl (omega arith) (omega arith)
      (tt, (tt, (tt, (tt, (tt, (tt, (tt, (tt, (tt, tt)))))))))

-- A worker past the test of its loop takes one of two tasks, and then no other.
abbrev one_woken : System ℕ
one_woken = run (start small 0 2) (two_submits ++ repeat 0 1)

takes_stopped_example :
    (takes 0 one_woken (stops ∷ repeat 0 9) ≤ 1)
    × (1 ≤ 1)
    × (queued one_woken.pool
        ≤ queued (run one_woken (stops ∷ repeat 0 9)).pool + total may_take one_woken.threads)
unfolding run step
takes_stopped_example = takes_stopped 0 one_woken (waiting 0) (repeat 0 9) refl

one_taken : takes 0 one_woken (stops ∷ repeat 0 9) ≡ 1
unfolding run step
one_taken = refl

-- Nothing is drained: the two tasks stay.
stopped_keeps : queued (run (run (start small 0 2) two_submits) (stops ∷ repeat 0 9)).pool ≡ 2
unfolding run step
stopped_keeps = refl

run-IsInRange_example : All (IsInRange 2) (run (start small 0 2) two_submits).threads
run-IsInRange_example =
    run-IsInRange small 0 2 two_submits (omega arith)
      (default-ChoosesInRange small refl (omega arith))
      (tt, (tt, (tt, (tt, (tt, (tt, (tt, (tt, (tt, tt)))))))))

abbrev in_turn : TaskProcessorConfig
in_turn = record small { mode = fifo }

run-pushes_example :
    in_order (run (start in_turn 0 2) two_submits) ≡ run_pushes (start in_turn 0 2) two_submits
run-pushes_example =
    run-pushes in_turn 0 2 two_submits (omega arith) refl
      (tt, (tt, (tt, (tt, (tt, (tt, (tt, (tt, (tt, tt)))))))))

-- A task with the promise 5 is submitted and run, and gives its payload and 1.
abbrev promised : List (Action ℕ)
promised =
    (moves 2 (submits (record { payload = 7; wrappers = 5 ∷ [] })) ∷ repeat 2 4) ++ repeat 0 6

-- The wrapper is called once, and the token is not set then.
abbrev promised_log : List (Call ℕ × Option Bool)
promised_log = (wrapped 5 7, some false) ∷ []

run-promise_example :
    (let s = run (start small 0 2) promised in
      let q = promise (λ n. some (n + 1)) (readings 5 promised_log) in
      ((false ≡ true) × (readings 5 promised_log ≡ []) × (q ≡ exception canceled_before_enqueue))
      ⊎ ((false ≡ false)
          × (content (weight (is_named 5)) s
                + total (weight (is_named 5)) (run_refused (start small 0 2) promised)
              ≡ 1)
          × (((readings 5 promised_log ≡ []) × (q ≡ unset))
              ⊎ ((token : Option Bool) × (readings 5 promised_log ≡ (7, token) ∷ [])
                  × IsOutcome (λ n. some (n + 1)) token 7 q))))
unfolding submit_with_result run step
run-promise_example =
    run-promise small 0 2 promised 5 (some false) 7 (λ n. some (n + 1)) [] [] promised_log refl refl
      refl refl

promised_value : promise (λ n. some (n + 1)) (readings 5 promised_log) ≡ value 8
unfolding promise
promised_value = refl

-- The workers see that the pool is stopped; the destructor joins them.
abbrev torn_down : List (Event ℕ)
torn_down =
    sets_final 9
    ∷ proceeds 0
    ∷ acts (moves 0 (goes 0))
    ∷ acts (moves 0 (goes 0))
    ∷ acts (moves 1 (goes 0))
    ∷ acts (moves 1 (goes 0))
    ∷ proceeds 1
    ∷ proceeds 2
    ∷ []

unwind-counting_example :
    (are_joined 2 (unwind 2 (begin (start small 0 2)) torn_down).system.threads ≡ true)
    × ((unwind 2 (begin (start small 0 2)) torn_down).system.pool.active_workers ≡ 0)
    × ((unwind 2 (unwind 2 (begin (start small 0 2)) torn_down) (proceeds 3 ∷ [])).finals
        ≡ call_final (unwind 2 (begin (start small 0 2)) torn_down).final_callback)
unfolding unwind advance
unwind-counting_example = unwind-counting small 0 2 3 torn_down [] (omega arith) refl

-- A task is refused, and the worker that delivers another takes the count within the interval.
abbrev dropped : List (Action ℕ)
dropped = two_submits ++ repeat 3 1 ++ (moves 2 (submits (task 9)) ∷ repeat 2 1) ++ repeat 0 7

dropped_lost :
    (run_refused (start small 0 2) dropped ≡ task 9 ∷ [])
    × (known_drops (run (start small 0 2) dropped).pool ≡ 0)
unfolding run step
dropped_lost = (refl, refl)

run-known_drops_example :
    known_drops (run (start small 0 2) dropped).pool
    ≤ length (run_refused (start small 0 2) dropped)
run-known_drops_example = run-known_drops small 0 2 dropped

run-ended_example :
    get_elem? (run (start small 0 2) (two_submits ++ stops ∷ repeat 0 10)).threads 0 ≡ some ended
run-ended_example =
    run-ended small 0 2 0 two_submits (repeat 0 10) (omega arith)
      (default-ChoosesInRange small refl (omega arith))
      (tt, (tt, (tt, (tt, (tt, (tt, (tt, (tt, (tt, tt)))))))))
      (tt, (tt, (tt, (tt, (tt, (tt, (tt, (tt, (tt, (tt, tt)))))))))) (omega arith)

-- A task with a callback of its own is submitted and delivered.
abbrev with_own : List (Action ℕ)
with_own = moves 2 (submits (record { payload = 7; wrappers = 9 ∷ [] })) ∷ repeat 2 4 ++ repeat 0 6

-- Two callbacks are registered before the work.
run-calls_example :
    (let s = run (start small 0 2) (register_all (3 ∷ 4 ∷ []) ++ with_own) in
      (under_lock s.pool.calls ≡ one_by_one (3 ∷ 4 ∷ []) s.pool.delivered)
      × ((f : ℕ × ℕ → ℕ) → total f (own_calls s.pool.calls) ≡ total f (own_of s.pool.delivered)))
run-calls_example =
    run-calls small 0 2 (3 ∷ 4 ∷ []) with_own
      (tt, (tt, (tt, (tt, (tt, (tt, (tt, (tt, (tt, (tt, (tt, tt)))))))))))

-- One task is delivered, and called three times.
three_calls :
    (run (start small 0 2) (register_all (3 ∷ 4 ∷ []) ++ with_own)).pool.calls
    ≡ registered 3 7 ∷ registered 4 7 ∷ wrapped 9 7 ∷ []
unfolding run step
three_calls = refl
