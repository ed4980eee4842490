-- ===== src/Pool/Bound.antt =====
-- pool/task_multi_processor.h: the circuit breaker and the size of the queues.
mod Moves
use mathlib.Core.Path.{subst}
use vectro.Common.{
  Bool-cases, ◌∙◌, ℕ, zero, suc, ◌+◌, ◌^◌, ◌≤◌, ◌<◌, ◌≡◌, inl, inr, refl, ap, Bool, true, false,
  Option, none, some, List, [], ◌∷◌, ◌++◌, if◌then◌else◌, length, length-append, length-set,
  length-replicate, get_elem?, set, replicate, total, total-append, total-set_at, arith,
  Option-cases, All,
}
use Moves.{submitter, ready, total-le_add, ready-submitter, Shrinks, loads, move-Shrinks}
use vectro.Pool.{
  TaskProcessorConfig, TaskItem, Processor, Pc, outside, loaded, placing, pushing, pushed, looping,
  waiting, woken, missed, stealing, took, uncounted, calling, reporting, leaving, crashed, ended,
  refuses, word, choose, push, take_own, steal, handle_drops, unsnoc,
}
use vectro.Pool.System.{
  Choice, time, submits, goes, System, Action, IsFixed, moves, stops, reconfigures, takes_dropped,
  registers, sets_affinity, move, step, run, start, workers,
}
use vectro.Pool.Counts.{
  handle_drops-keeps, total-start, total-replicate_nil, uncounted_push, uncounted_pop, queued,
  IsCounted, exchange, move-KeepsCount, length-unsnoc, start-IsCounted,
}

module _ {T : Type 0} where
  module _ (cfg : TaskProcessorConfig) (n : ℕ) where
    -- The tasks in the queues and on their way there.
    abbrev demand : System T → ℕ
    demand s = queued s.pool + total (ready cfg) s.threads

    record Inv (s : System T) : Type 0 where
      same : s.pool.cfg ≡ cfg
      threads : length s.threads ≡ cfg.num_threads + n
      submitters : total submitter s.threads ≤ n
      counted : IsCounted s
      bound : demand s + 1 ≤ cfg.max_queue_size + n

    module _ (breaker : cfg.enable_circuit_breaker ≡ true) (some_room : 0 < cfg.max_queue_size)
        (fits : cfg.max_queue_size + n + (cfg.num_threads + n) < 2 ^ 63) where
      pops_le : (pcs : List (Pc T)) → total uncounted_pop pcs ≤ length pcs
      pops_le [] = omega arith
      pops_le (pc ∷ pcs) = ground (arith, pops_le pcs)

      -- The count that a submitter reads, if the breaker lets it pass, is near what the queues hold.
      load_bound :
          (s : System T)
          → Inv s
          → s.pool.tasks_in_queue < cfg.max_queue_size
          → queued s.pool + 1 ≤ cfg.max_queue_size + total uncounted_push s.threads
      load_bound s v low = omega (
        arith,
        low,
        fits,
        v.counted,
        v.bound,
        v.threads,
        v.submitters,
        pops_le s.threads,
        total-le_add uncounted_push (ready cfg) submitter (ready-submitter cfg) s.threads,
      )

      load-Inv :
          (s : System T) (place : ℕ) (ti : TaskItem T)
          → get_elem? s.threads place ≡ some outside
          → Inv s
          → Inv (step s (moves place (submits ti)))
      unfolding step
      load-Inv s place ti e v =
          rw (e, step)
            (record {
              same = v.same;
              threads = omega (arith, v.threads, length-set s.threads place after);
              submitters =
                  omega
                    (arith, v.submitters, total-set_at submitter s.threads place outside after e);
              counted = omega (
                arith,
                v.counted,
                total-set_at uncounted_push s.threads place outside after e,
                total-set_at uncounted_pop s.threads place outside after e,
              );
              bound = elim (Bool-cases (refuses cfg s.pool.tasks_in_queue)) [
                | inl full ↦ omega (arith, v.bound, ready_after, none_ready full)
                | inr go ↦ omega (
                  arith,
                  load_bound s v (ground (arith, go, breaker, some_room)),
                  v.submitters,
                  total-set_at submitter s.threads place outside after e,
                  total-set_at uncounted_push s.threads place outside after e,
                  total-le_add uncounted_push (ready cfg) submitter (ready-submitter cfg)
                      (set s.threads place after),
                )
              ];
            })
        where
          after : Pc T
          after = loaded ti s.pool.tasks_in_queue

          ready_after :
              total (ready cfg) (set s.threads place after)
              ≡ total (ready cfg) s.threads + ready cfg after
          ready_after = omega (arith, total-set_at (ready cfg) s.threads place outside after e)

          none_ready : refuses cfg s.pool.tasks_in_queue ≡ true → ready cfg after ≡ 0
          none_ready full = ground (arith, full)

      shrink-Inv :
          (s : System T) (place : ℕ) (c : Choice T) (pc : Pc T)
          → get_elem? s.threads place ≡ some pc
          → loads c pc ≡ false
          → Inv s
          → Inv (step s (moves place c))
      unfolding step
      shrink-Inv s place c pc e quiet v =
          rw (e, step)
            (record {
              same = less.cfg_same ∙ v.same;
              threads = omega (arith, v.threads, length-set s.threads place r.1);
              submitters = omega (
                arith,
                v.submitters,
                less.submitters,
                total-set_at submitter s.threads place pc r.1 e,
              );
              counted = exchange s place pc r e (move-KeepsCount c s.pool pc) v.counted;
              bound =
                  omega (arith, v.bound, fewer, total-set_at (ready cfg) s.threads place pc r.1 e);
            })
        where
          r : Processor T × Pc T
          r = move c s.pool pc

          less : Shrinks s.pool pc r
          less = move-Shrinks c s.pool pc quiet

          fewer : queued r.0 + ready cfg r.1 ≤ queued s.pool + ready cfg pc
          fewer =
              subst (λ k. queued r.0 + ready k r.1 ≤ queued s.pool + ready k pc) v.same less.fewer

      moves-Inv :
          (s : System T) (place : ℕ) (c : Choice T) (pc : Pc T)
          → get_elem? s.threads place ≡ some pc
          → Inv s
          → Inv (step s (moves place c))
      moves-Inv s place (submits ti) outside e v = load-Inv s place ti e v
      moves-Inv s place (goes now) outside e v = shrink-Inv s place (goes now) outside e refl v
      moves-Inv s place (submits ti) pc e v = shrink-Inv s place (submits ti) pc e refl v
      moves-Inv s place (goes now) pc e v = shrink-Inv s place (goes now) pc e refl v

      step-Inv : (s : System T) (a : Action T) → IsFixed a → Inv s → Inv (step s a)
      unfolding step
      step-Inv s (moves place c) p v = elim (Option-cases (get_elem? s.threads place)) [
        | inl gone ↦ rw (gone, step) v
        | inr (pc, e) ↦ moves-Inv s place c pc e v
      ]
      step-Inv s stops p v = record {
        same = v.same;
        threads = v.threads;
        submitters = v.submitters;
        counted = v.counted;
        bound = v.bound;
      }
      step-Inv s takes_dropped p v = record {
        same = v.same;
        threads = v.threads;
        submitters = v.submitters;
        counted = v.counted;
        bound = v.bound;
      }
      step-Inv s (registers cb) p v = record {
        same = v.same;
        threads = v.threads;
        submitters = v.submitters;
        counted = v.counted;
        bound = v.bound;
      }
      step-Inv s (sets_affinity fn) p v = record {
        same = v.same;
        threads = v.threads;
        submitters = v.submitters;
        counted = v.counted;
        bound = v.bound;
      }
      step-Inv s (reconfigures new_cfg) p v = absurd p

      run-Inv :
          (s : System T) (actions : List (Action T))
          → All IsFixed actions
          → Inv s
          → Inv (run s actions)
      unfolding run
      run-Inv s [] p v = v
      run-Inv s (a ∷ actions) p v = run-Inv (step s a) actions p.1 (step-Inv s a p.0 v)

length-workers : (T : Type 0) (k id : ℕ) → length (workers {T = T} k id) ≡ k
length-workers T zero id = refl
length-workers T (suc k) id = ap suc (length-workers T k (suc id))

submitter-outside : (T : Type 0) (m : ℕ) → total (submitter {T = T}) (replicate m outside) ≡ m
submitter-outside T zero = refl
submitter-outside T (suc m) = omega (arith, submitter-outside T m)

submitter-workers : (T : Type 0) (k id : ℕ) → total (submitter {T = T}) (workers k id) ≡ 0
submitter-workers T zero id = refl
submitter-workers T (suc k) id = omega (arith, submitter-workers T k (suc id))

start-Inv :
    (T : Type 0) (cfg : TaskProcessorConfig) (now n : ℕ)
    → 0 < cfg.max_queue_size
    → Inv cfg n (start {T = T} cfg now n)
start-Inv T cfg now n some_room = record {
  same = refl;
  threads = omega (
    arith,
    length-append {A = Pc T} (workers cfg.num_threads 0) (replicate n outside),
    length-workers T cfg.num_threads 0,
    length-replicate {A = Pc T} n outside,
  );
  submitters = omega (
    arith,
    total-append (submitter {T = T}) (workers cfg.num_threads 0) (replicate n outside),
    submitter-workers T cfg.num_threads 0,
    submitter-outside T n,
  );
  counted = start-IsCounted T cfg now n;
  bound = omega (
    arith,
    some_room,
    total-start {T = T} (ready cfg) cfg now n refl (λ id. refl),
    total-replicate_nil {T = T} (λ q. length q) cfg.num_threads refl,
  );
}

-- For any number of submitting threads `n` and any interleaving in which the configuration is not
-- replaced: with the circuit breaker on, `max_queue_size` above 0, and `max_queue_size`, the workers
-- and twice `n` together below `2 ^ 63`, the queues together hold at most `max_queue_size + n - 1`
-- tasks.
pub run-bounded :
    {T : Type 0} (cfg : TaskProcessorConfig) (now n : ℕ) (actions : List (Action T))
    → cfg.enable_circuit_breaker ≡ true
    → 0 < cfg.max_queue_size
    → cfg.max_queue_size + n + (cfg.num_threads + n) < 2 ^ 63
    → All IsFixed actions
    → queued (run (start cfg now n) actions).pool + 1 ≤ cfg.max_queue_size + n
run-bounded {T} cfg now n actions breaker some_room fits p = omega (arith, reached.bound)
  where
    reached : Inv cfg n (run (start cfg now n) actions)
    reached =
        run-Inv cfg n breaker some_room fits (start cfg now n) actions p
          (start-Inv T cfg now n some_room)
