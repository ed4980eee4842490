-- ===== src/Log/Bound.antt =====
-- log/log_adapter.h: the size of the queue and the high-water mark.
use vectro.Common.{
  ℕ, ◌≤◌, ◌≡◌, refl, List, [], ◌∷◌, length, length-append, get_elem?, arith, Option-cases, inl, inr,
  All,
}
use vectro.Log.{
  LogMessage, Writer, idle, sized, entering, Worker, at_loop, dispatching, reporting, draining,
  stopping, ended, crashed, LogAdapter, start, enqueue, process, Action, writes, works, registers,
  clears, limits, notifies_every, takes_dropped, stops, step, run,
}

-- The limit is not changed.
abbrev pub IsFixed : Action → Type 0
IsFixed (limits n) = ⊥
IsFixed _ = Unit

pub record IsBounded (n : ℕ) (s : LogAdapter) : Type 0 where
  pub limit : s.max_queue_size ≡ n
  pub marked : length s.queue ≤ s.high_water_mark
  pub bounded : s.high_water_mark ≤ n

enqueue-IsBounded :
    (n : ℕ) (lm : LogMessage) (s : LogAdapter) (w : Writer)
    → IsBounded n s
    → IsBounded n (enqueue lm s w).0
unfolding enqueue
enqueue-IsBounded n lm s idle b = b
enqueue-IsBounded n _ s (sized lm sz) b = ground arith
enqueue-IsBounded n _ s (entering lm) b = ground (arith, length-append s.queue (lm ∷ []))

process-IsBounded :
    (n now : ℕ) (s : LogAdapter) (w : Worker) → IsBounded n s → IsBounded n (process now s w)
unfolding process
process-IsBounded n now s at_loop b = ground arith
process-IsBounded n now s (dispatching final []) b = ground arith
process-IsBounded n now s (dispatching final (lm ∷ rest)) b = ground arith
process-IsBounded n now s (reporting final) b = ground arith
process-IsBounded n now s draining b = ground arith
process-IsBounded n now s stopping b = ground arith
process-IsBounded n now s ended b = b
process-IsBounded n now s (crashed left) b = b

step-IsBounded :
    (n : ℕ) (s : LogAdapter) (a : Action) → IsFixed a → IsBounded n s → IsBounded n (step s a)
unfolding step
step-IsBounded n s (writes place lm) p b = elim (Option-cases (get_elem? s.writers place)) [
  | inl gone ↦ rw (gone, step) b
  | inr (w, e) ↦
      let next = enqueue-IsBounded n lm s w b in
      rw (e, step) (record { limit = next.limit; marked = next.marked; bounded = next.bounded })
]
step-IsBounded n s (works now) p b = process-IsBounded n now s s.worker b
step-IsBounded n s (registers cb again) p b = ground arith
step-IsBounded n s clears p b = ground arith
step-IsBounded n s (limits m) p b = absurd p
step-IsBounded n s (notifies_every interval) p b = ground arith
step-IsBounded n s takes_dropped p b = ground arith
step-IsBounded n s stops p b = ground arith

run-IsBounded_from :
    (n : ℕ) (s : LogAdapter) (actions : List Action)
    → All IsFixed actions
    → IsBounded n s
    → IsBounded n (run s actions)
unfolding run
run-IsBounded_from n s [] p b = b
run-IsBounded_from n s (a ∷ actions) p b =
    run-IsBounded_from n (step s a) actions p.1 (step-IsBounded n s a p.0 b)

-- In any interleaving in which the limit is not changed: the queue is never longer than the high-water
-- mark, and this never above the 10000 that the constructor sets.
run-high_water_mark :
    (now n : ℕ) (actions : List Action)
    → All IsFixed actions
    → (length (run (start now n) actions).queue ≤ (run (start now n) actions).high_water_mark)
      × ((run (start now n) actions).high_water_mark ≤ 10000)
run-high_water_mark now n actions p =
    let b =
      run-IsBounded_from 10000 (start now n) actions p
        (record { limit = refl; marked = omega arith; bounded = omega arith }) in
    (b.marked, b.bounded)
