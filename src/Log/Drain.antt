-- ===== src/Log/Drain.antt =====
-- log/log_adapter.h: how the worker ends once `running_` is off.
use mathlib.Core.List.{append_assoc, append-nil}
use mathlib.Core.Path.{subst}
use vectro.Common.{
  ℕ, zero, suc, ◌+◌, ◌≤◌, ◌≡◌, refl, sym, ap, Bool, true, false, Option, some, List, [], ◌∷◌, ◌++◌,
  if◌then◌else◌, length, arith,
}
use vectro.Log.{
  LogMessage, Worker, at_loop, dispatching, reporting, draining, stopping, ended, LogAdapter,
  process, Action, works, step, run,
}

-- The worker takes `k` steps.
abbrev pub ticks : ℕ → ℕ → List Action
ticks now zero = []
ticks now (suc k) = works now ∷ ticks now k

-- Where a turn of the loop leads once `running_` is off.
abbrev past_loop : List LogMessage → Worker
past_loop [] = draining
past_loop (lm ∷ rest) = dispatching false (lm ∷ rest)

module _ (now : ℕ) (cbs : List (Option ℕ)) where
  pub record IsAt (w : Worker) (q d : List LogMessage) (s : LogAdapter) : Type 0 where
    pub worker : s.worker ≡ w
    pub callbacks : s.callbacks ≡ some cbs
    pub running : s.running ≡ false
    pub queue : s.queue ≡ q
    pub dispatched : s.dispatched ≡ d

  pub record IsDone (d : List LogMessage) (s : LogAdapter) : Type 0 where
    pub worker : s.worker ≡ ended
    pub stopped : s.stopped ≡ true
    pub queue : s.queue ≡ []
    pub dispatched : s.dispatched ≡ d

  work-dispatching :
      (final : Bool) (lm : LogMessage) (rest q d : List LogMessage) (s : LogAdapter)
      → IsAt (dispatching final (lm ∷ rest)) q d s
      → IsAt (dispatching final rest) q (d ++ lm ∷ []) (step s (works now))
  unfolding step
  work-dispatching final lm rest q d s p =
      ground (arith, p.worker, p.callbacks, p.running, p.queue, p.dispatched)

  work-dispatched :
      (final : Bool) (q d : List LogMessage) (s : LogAdapter)
      → IsAt (dispatching final []) q d s
      → IsAt (reporting final) q d (step s (works now))
  unfolding step
  work-dispatched final q d s p =
      ground (arith, p.worker, p.callbacks, p.running, p.queue, p.dispatched)

  work-reporting :
      (final : Bool) (q d : List LogMessage) (s : LogAdapter)
      → IsAt (reporting final) q d s
      → IsAt (if final then stopping else at_loop) q d (step s (works now))
  unfolding step
  work-reporting final q d s p =
      ground (arith, p.worker, p.callbacks, p.running, p.queue, p.dispatched)

  work-at_loop :
      (q d : List LogMessage) (s : LogAdapter)
      → IsAt at_loop q d s
      → IsAt (past_loop q) [] d (step s (works now))
  unfolding step
  work-at_loop [] d s p = ground (arith, p.worker, p.callbacks, p.running, p.queue, p.dispatched)
  work-at_loop (lm ∷ rest) d s p =
      ground (arith, p.worker, p.callbacks, p.running, p.queue, p.dispatched)

  work-draining :
      (q d : List LogMessage) (s : LogAdapter)
      → IsAt draining q d s
      → IsAt (dispatching true q) [] d (step s (works now))
  unfolding step
  work-draining q d s p = ground (arith, p.worker, p.callbacks, p.running, p.queue, p.dispatched)

  pub step_ended : (s : LogAdapter) → s.worker ≡ ended → step s (works now) ≡ s
  unfolding step process
  step_ended s e = ap (λ w. process now s w) e

  run_ended :
      (k : ℕ) (d : List LogMessage) (s : LogAdapter)
      → s.worker ≡ ended
      → IsDone d s
      → IsDone d (run s (ticks now k))
  unfolding run
  run_ended zero d s e h = h
  run_ended (suc k) d s e h =
      subst (λ (t : LogAdapter). IsDone d (run t (ticks now k))) (sym (step_ended s e))
        (run_ended k d s e h)

  run_stopping :
      (k : ℕ) (d : List LogMessage) (s : LogAdapter)
      → 1 ≤ k
      → IsAt stopping [] d s
      → IsDone d (run s (ticks now k))
  unfolding run step
  run_stopping zero d s lt p = absurd (omega arith)
  run_stopping (suc k) d s lt p =
      run_ended k d (step s (works now)) (ground (arith, p.worker))
        (ground (arith, p.worker, p.queue, p.dispatched))

  run_final :
      (left : List LogMessage) (k : ℕ) (d : List LogMessage) (s : LogAdapter)
      → length left + 3 ≤ k
      → IsAt (dispatching true left) [] d s
      → IsDone (d ++ left) (run s (ticks now k))
  unfolding run
  run_final left zero d s lt p = absurd (omega arith)
  run_final [] (suc zero) d s lt p = absurd (omega arith)
  run_final [] (suc (suc k)) d s lt p = rw (append-nil d) (
      run_stopping k d _ (omega arith) (work-reporting true [] d _ (work-dispatched true [] d s p)))
  run_final (lm ∷ rest) (suc k) d s lt p = rw (← append_assoc d (lm ∷ []) rest) (
      run_final rest k (d ++ lm ∷ []) (step s (works now)) (omega arith)
        (work-dispatching true lm rest [] d s p))

  run_empty :
      (k : ℕ) (d : List LogMessage) (s : LogAdapter)
      → 5 ≤ k
      → IsAt at_loop [] d s
      → IsDone d (run s (ticks now k))
  unfolding run
  run_empty zero d s lt p = absurd (omega arith)
  run_empty (suc zero) d s lt p = absurd (omega arith)
  run_empty (suc (suc k)) d s lt p =
      rw (append-nil d) at
        (run_final [] k d _ (omega arith) (work-draining [] d _ (work-at_loop [] d s p)))

  run_batch :
      (left : List LogMessage) (k : ℕ) (d : List LogMessage) (s : LogAdapter)
      → length left + 7 ≤ k
      → IsAt (dispatching false left) [] d s
      → IsDone (d ++ left) (run s (ticks now k))
  unfolding run
  run_batch left zero d s lt p = absurd (omega arith)
  run_batch [] (suc zero) d s lt p = absurd (omega arith)
  run_batch [] (suc (suc k)) d s lt p =
      rw (append-nil d) (
        run_empty k d _ (omega arith)
          (work-reporting false [] d _ (work-dispatched false [] d s p)))
  run_batch (lm ∷ rest) (suc k) d s lt p = rw (← append_assoc d (lm ∷ []) rest) (
      run_batch rest k (d ++ lm ∷ []) (step s (works now)) (omega arith)
        (work-dispatching false lm rest [] d s p))

  pub run_all :
      (q : List LogMessage) (k : ℕ) (d : List LogMessage) (s : LogAdapter)
      → length q + 8 ≤ k
      → IsAt at_loop q d s
      → IsDone (d ++ q) (run s (ticks now k))
  unfolding run
  run_all [] k d s lt p = rw (append-nil d) (run_empty k d s (omega arith) p)
  run_all (lm ∷ rest) zero d s lt p = absurd (omega arith)
  run_all (lm ∷ rest) (suc k) d s lt p =
      run_batch (lm ∷ rest) k d (step s (works now)) (omega arith) (work-at_loop (lm ∷ rest) d s p)

-- Once `running_` is off and with a list of callbacks, a worker at the test of its loop that takes at
-- least eight steps more than there are messages in the queue, while no other thread does: it
-- dispatches all of them in order, leaves the queue empty, and sets `stopped_`.
run-ticks :
    (now k : ℕ) (cbs : List (Option ℕ)) (s : LogAdapter)
    → s.worker ≡ at_loop
    → s.running ≡ false
    → s.callbacks ≡ some cbs
    → length s.queue + 8 ≤ k
    → ((run s (ticks now k)).stopped ≡ true)
      × ((run s (ticks now k)).queue ≡ [])
      × ((run s (ticks now k)).dispatched ≡ s.dispatched ++ s.queue)
run-ticks now k cbs s w r c lt =
    let done =
      run_all now cbs s.queue k s.dispatched s lt
        (record { worker = w; callbacks = c; running = r; queue = refl; dispatched = refl }) in
    (done.stopped, done.queue, done.dispatched)
