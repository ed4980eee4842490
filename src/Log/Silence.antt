-- ===== src/Log/Silence.antt =====
-- log/log_adapter.h: the logger before `ClearCallbacks`, with `callbacks_` a null pointer.

use vectro.Common.{ℕ, ◌≡◌, refl, none, List, [], ◌∷◌, get_elem?, arith, Option-cases, inl, inr, All}
use vectro.Log.{
  LogMessage, Writer, idle, sized, entering, Worker, at_loop, dispatching, reporting, draining,
  stopping, ended, crashed, LogAdapter, start, enqueue, process, Action, writes, works, registers,
  clears, limits, notifies_every, takes_dropped, stops, step, run,
}

-- `ClearCallbacks` is not called.
abbrev NeverClears : Action → Type 0
NeverClears clears = ⊥
NeverClears _ = Unit

record IsMute (s : LogAdapter) : Type 0 where
  no_list : s.callbacks ≡ none
  nothing : s.dispatched ≡ []

enqueue-IsMute :
    (lm : LogMessage) (s : LogAdapter) (w : Writer) → IsMute s → IsMute (enqueue lm s w).0
unfolding enqueue
enqueue-IsMute lm s idle h = h
enqueue-IsMute _ s (sized lm sz) h = ground arith
enqueue-IsMute _ s (entering lm) h = ground arith

process-IsMute : (now : ℕ) (s : LogAdapter) (w : Worker) → IsMute s → IsMute (process now s w)
unfolding process
process-IsMute now s at_loop h = ground arith
process-IsMute now s (dispatching final []) h = ground arith
process-IsMute now s (dispatching final (lm ∷ rest)) h = ground arith
process-IsMute now s (reporting final) h = ground arith
process-IsMute now s draining h = ground arith
process-IsMute now s stopping h = ground arith
process-IsMute now s ended h = h
process-IsMute now s (crashed left) h = h

step-IsMute : (s : LogAdapter) (a : Action) → NeverClears a → IsMute s → IsMute (step s a)
unfolding step
step-IsMute s (writes place lm) p h = elim (Option-cases (get_elem? s.writers place)) [
  | inl gone ↦ rw (gone, step) h
  | inr (w, e) ↦
      let next = enqueue-IsMute lm s w h in
      rw (e, step) (record { no_list = next.no_list; nothing = next.nothing })
]
step-IsMute s (works now) p h = process-IsMute now s s.worker h
step-IsMute s (registers cb again) p h = ground (arith, h.no_list)
step-IsMute s clears p h = absurd p
step-IsMute s (limits m) p h = record { no_list = h.no_list; nothing = h.nothing }
step-IsMute s (notifies_every interval) p h = record { no_list = h.no_list; nothing = h.nothing }
step-IsMute s takes_dropped p h = record { no_list = h.no_list; nothing = h.nothing }
step-IsMute s stops p h = record { no_list = h.no_list; nothing = h.nothing }

run-IsMute :
    (s : LogAdapter) (actions : List Action)
    → All NeverClears actions
    → IsMute s
    → IsMute (run s actions)
unfolding run
run-IsMute s [] p h = h
run-IsMute s (a ∷ actions) p h = run-IsMute (step s a) actions p.1 (step-IsMute s a p.0 h)

-- In any interleaving without a call of `ClearCallbacks`, the list of callbacks stays a null pointer,
-- and no message is ever dispatched.
run_unlisted :
    (now n : ℕ) (actions : List Action)
    → All NeverClears actions
    → ((run (start now n) actions).callbacks ≡ none) × ((run (start now n) actions).dispatched ≡ [])
run_unlisted now n actions p =
    let h = run-IsMute (start now n) actions p (record { no_list = refl; nothing = refl }) in
    (h.no_list, h.nothing)
