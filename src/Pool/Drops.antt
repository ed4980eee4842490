-- ===== src/Pool/Drops.antt =====
-- pool/task_multi_processor.h: the count of the tasks that the circuit breaker refuses.
use vectro.Common.{
  ℕ, ◌+◌, ◌≤◌, inl, inr, List, [], ◌∷◌, length, length-append, get_elem?, total, total-append,
  arith, Option-cases,
}
use vectro.Pool.{
  TaskProcessorConfig, Processor, Pc, outside, loaded, placing, pushing, pushed, looping, waiting,
  woken, missed, stealing, took, uncounted, calling, reporting, leaving, crashed, ended, choose,
  push, take_own, steal, handle_drops,
}
use vectro.Pool.System.{
  Choice, time, submits, goes, System, Action, moves, stops, reconfigures, takes_dropped, registers,
  sets_affinity, move, step, run, start,
}
use vectro.Pool.Tasks.{refused, step_refused, run_refused}

module _ {T : Type 0} where
  -- The drops that were reported or answered, and those that are still counted.
  abbrev pub known_drops : Processor T → ℕ
  known_drops p = total (λ n. n) p.reports + total (λ n. n) p.answers + p.dropped_count

  handle_drops-known_drops :
      (now : ℕ) (p : Processor T) → known_drops (handle_drops now p) ≤ known_drops p
  unfolding handle_drops
  handle_drops-known_drops now p =
      ground (arith, total-append (λ n. n) p.reports (p.dropped_count ∷ []))

  move-known_drops :
      (c : Choice T) (p : Processor T) (pc : Pc T)
      → known_drops (move c p pc).0 ≤ known_drops p + length (refused p pc)
  unfolding move choose push take_own steal
  move-known_drops (submits ti) p outside = omega arith
  move-known_drops (goes now) p outside = omega arith
  move-known_drops c p (loaded ti curr) = ground arith
  move-known_drops c p (placing ti) = ground arith
  move-known_drops c p (pushing ti idx) = ground arith
  move-known_drops c p pushed = omega arith
  move-known_drops c p (looping id) = omega arith
  move-known_drops c p (waiting id) = omega arith
  move-known_drops c p (woken id) = ground arith
  move-known_drops c p (missed id) = omega arith
  move-known_drops c p (stealing id vic) = ground arith
  move-known_drops c p (took id ti) = omega arith
  move-known_drops c p (uncounted id ti) = omega arith
  move-known_drops c p (calling id ti) = omega arith
  move-known_drops c p (reporting id) = omega (arith, handle_drops-known_drops (time c) p)
  move-known_drops c p leaving = omega arith
  move-known_drops c p (crashed held) = omega arith
  move-known_drops c p ended = omega arith

  step-known_drops :
      (s : System T) (a : Action T)
      → known_drops (step s a).pool ≤ known_drops s.pool + length (step_refused s a)
  unfolding step
  step-known_drops s (moves place c) = elim (Option-cases (get_elem? s.threads place)) [
    | inl gone ↦ rw (gone, step, step_refused) (omega arith)
    | inr (pc, e) ↦ rw (e, step, step_refused) (move-known_drops c s.pool pc)
  ]
  step-known_drops s stops = omega arith
  step-known_drops s (reconfigures cfg) = omega arith
  step-known_drops s takes_dropped =
      omega (arith, total-append (λ n. n) s.pool.answers (s.pool.dropped_count ∷ []))
  step-known_drops s (registers cb) =
      omega (arith, total-append (λ n. n) s.pool.answers (s.pool.dropped_count ∷ []))
  step-known_drops s (sets_affinity fn) =
      omega (arith, total-append (λ n. n) s.pool.answers (s.pool.dropped_count ∷ []))

  run-known_drops_from :
      (s : System T) (actions : List (Action T))
      → known_drops (run s actions).pool ≤ known_drops s.pool + length (run_refused s actions)
  unfolding run
  run-known_drops_from s [] = omega arith
  run-known_drops_from s (a ∷ actions) = omega (
    arith,
    run-known_drops_from (step s a) actions,
    step-known_drops s a,
    length-append (step_refused s a) (run_refused (step s a) actions),
  )

-- In any interleaving: the drops that `HandleDrops` has reported, those that `GetDroppedCount` has
-- returned and those still counted are together at most the tasks that were refused.
pub run-known_drops :
    {T : Type 0} (cfg : TaskProcessorConfig) (now n : ℕ) (actions : List (Action T))
    → known_drops (run (start cfg now n) actions).pool
      ≤ length (run_refused (start cfg now n) actions)
run-known_drops cfg now n actions = omega (arith, run-known_drops_from (start cfg now n) actions)
