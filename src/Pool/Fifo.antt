-- ===== src/Pool/Fifo.antt =====
-- pool/task_multi_processor.h in the mode FIFO: one queue, and the one worker that reads it.
mod Moves
use mathlib.Core.List.{append_assoc, append-nil}
use vectro.Common.{
  ℕ, zero, suc, ◌+◌, ◌-◌, ◌≤◌, ◌<◌, ◌≡◌, ◌≢◌, refl, sym, ap, ◌∙◌, true, false, Option, none, some,
  List, [], ◌∷◌, ◌++◌, if◌then◌else◌, get_elem?, set, replicate, arith, Option-cases, inl, inr, All,
  All-set, All-get_elem?, All-append, All-replicate,
}
use Moves.{
  first_queue, OnlyFirst, taken, first_taken, pushes, IsFirst, IsOther, IsSingle, move-FirstStep,
  move-OtherStep, pushes-IsFirst,
}
use vectro.Pool.{
  fifo, round_robin, work_stealing, TaskProcessorConfig, TaskItem, Processor, Pc, outside, loaded,
  placing, pushing, pushed, looping, waiting, woken, missed, stealing, took, uncounted, calling,
  reporting, leaving, crashed, ended, choose, push, take_own, pick_victim, steal, handle_drops,
}
use vectro.Pool.System.{
  Choice, submits, goes, time, System, Action, moves, stops, reconfigures, takes_dropped, registers,
  sets_affinity, IsFixed, move, step, run, workers, start,
}

module _ {T : Type 0} where
  -- What was delivered, then what the first worker holds, then its queue.
  abbrev pub in_order : System T → List (TaskItem T)
  in_order s = s.pool.delivered ++ (first_taken s.threads ++ first_queue s.pool.queues)

  abbrev step_pushes : System T → Action T → List (TaskItem T)
  step_pushes s (moves place c) = elim (get_elem? s.threads place) [
    | none ↦ []
    | some pc ↦ pushes s.pool pc
  ]
  step_pushes s _ = []

  abbrev pub run_pushes : System T → List (Action T) → List (TaskItem T)
  run_pushes s [] = []
  run_pushes s (a ∷ actions) = step_pushes s a ++ run_pushes (step s a) actions

  -- The first thread is the first worker.
  abbrev AreInPlace : List (Pc T) → Type 0
  AreInPlace [] = ⊥
  AreInPlace (pc ∷ pcs) = IsFirst pc × All IsOther pcs

  record IsFifo (s : System T) : Type 0 where
    single : IsSingle s.pool
    places : AreInPlace s.threads

  -- One step of the thread at a place, with the threads as a list.
  move-in_order :
      (place : ℕ) (c : Choice T) (p : Processor T) (pcs : List (Pc T)) (pc : Pc T)
      → IsSingle p
      → AreInPlace pcs
      → get_elem? pcs place ≡ some pc
      → IsSingle (move c p pc).0
        × AreInPlace (set pcs place (move c p pc).1)
        × ((move c p pc).0.delivered
              ++ (first_taken (set pcs place (move c p pc).1) ++ first_queue (move c p pc).0.queues)
            ≡ (p.delivered ++ (first_taken pcs ++ first_queue p.queues)) ++ pushes p pc)
  move-in_order place c p [] pc z a e = absurd a
  move-in_order zero c p (x ∷ pcs) pc z a e =
      let same : x ≡ pc = ground (arith, e) in
      let m = move-FirstStep c p pc z (rw same at a.0) in
      (
        m.single,
        (m.again, a.1),
        rw same (
            m.order
            ∙ rw (pushes-IsFirst p pc (rw same at a.0))
                (sym (append-nil (p.delivered ++ (taken pc ++ first_queue p.queues))))),
      )
  move-in_order (suc place) c p (x ∷ pcs) pc z a e =
      let m = move-OtherStep c p pc z (All-get_elem? IsOther pcs place pc e a.1) in
      (
        m.single,
        (a.0, All-set IsOther pcs place (move c p pc).1 m.again a.1),
        rw (m.still, m.order)
            (sym (
              append_assoc p.delivered (taken x ++ first_queue p.queues) (pushes p pc)
              ∙ ap (◌++◌ p.delivered)
                  (append_assoc (taken x) (first_queue p.queues) (pushes p pc)))),
      )

  step-in_order :
      (s : System T) (a : Action T)
      → IsFixed a
      → IsFifo s
      → IsFifo (step s a) × (in_order (step s a) ≡ in_order s ++ step_pushes s a)
  unfolding step
  step-in_order s (moves place c) p v = elim (Option-cases (get_elem? s.threads place)) [
    | inl gone ↦ rw (gone, step, step_pushes) (v, sym (append-nil (in_order s)))
    | inr (pc, e) ↦
        let m = move-in_order place c s.pool s.threads pc v.single v.places e in
        rw (e, step, step_pushes) (record { single = m.0; places = m.1 }, m.2)
  ]
  step-in_order s stops p v = (
    record { single = record { mode = v.single.mode; only = v.single.only }; places = v.places },
    sym (append-nil (in_order s)),
  )
  step-in_order s takes_dropped p v = (
    record { single = record { mode = v.single.mode; only = v.single.only }; places = v.places },
    sym (append-nil (in_order s)),
  )
  step-in_order s (registers cb) p v = (
    record { single = record { mode = v.single.mode; only = v.single.only }; places = v.places },
    sym (append-nil (in_order s)),
  )
  step-in_order s (sets_affinity fn) p v = (
    record { single = record { mode = v.single.mode; only = v.single.only }; places = v.places },
    sym (append-nil (in_order s)),
  )
  step-in_order s (reconfigures cfg) p v = absurd p

  run-in_order :
      (s : System T) (actions : List (Action T))
      → All IsFixed actions
      → IsFifo s
      → in_order (run s actions) ≡ in_order s ++ run_pushes s actions
  unfolding run
  run-in_order s [] p v = sym (append-nil (in_order s))
  run-in_order s (a ∷ actions) p v =
      let m = step-in_order s a p.0 v in
      run-in_order (step s a) actions p.1 m.0
      ∙ ap (λ ts. ts ++ run_pushes (step s a) actions) m.1
      ∙ append_assoc (in_order s) (step_pushes s a) (run_pushes (step s a) actions)

workers-IsOther : (T : Type 0) (k id : ℕ) → 0 < id → All (IsOther {T = T}) (workers k id)
workers-IsOther T zero id lt = tt
workers-IsOther T (suc k) id lt = (lt, workers-IsOther T k (suc id) (omega arith))

start-IsFifo :
    (T : Type 0) (cfg : TaskProcessorConfig) (now n k : ℕ)
    → cfg.num_threads ≡ suc k
    → cfg.mode ≡ fifo
    → IsFifo {T = T} (start cfg now n)
start-IsFifo T cfg now n k size mode = record {
  single = record {
    mode = mode;
    only = rw size (All-replicate (λ (r : List (TaskItem T)). r ≡ []) k [] refl);
  };
  places = rw size (
    refl,
    All-append IsOther (workers k 1) (replicate n outside) (workers-IsOther T k 1 (omega arith))
        (All-replicate IsOther n outside tt),
  );
}

-- In FIFO mode, with at least one worker and any interleaving in which the configuration is not
-- replaced: the tasks delivered, then those that the first worker has in hand, then those in the
-- first queue, are the tasks pushed, in the order of the pushes.
pub run-pushes :
    {T : Type 0} (cfg : TaskProcessorConfig) (now n : ℕ) (actions : List (Action T))
    → 0 < cfg.num_threads
    → cfg.mode ≡ fifo
    → All IsFixed actions
    → in_order (run (start cfg now n) actions) ≡ run_pushes (start cfg now n) actions
run-pushes {T} cfg now n actions pos mode p =
    run-in_order (start cfg now n) actions p
      (start-IsFifo T cfg now n (cfg.num_threads - 1) size mode)
    ∙ rw (size) refl
  where
    size : cfg.num_threads ≡ suc (cfg.num_threads - 1)
    size = omega arith
