-- ===== src/Log/Order.antt =====
-- log/log_adapter.h: the order of the messages that the queue takes.
use mathlib.Core.List.{append_assoc, append-nil}
use vectro.Common.{
  ℕ, ◌≡◌, refl, sym, ap, ◌∙◌, none, some, List, [], ◌∷◌, ◌++◌, leb, if◌then◌else◌, length,
  get_elem?, arith, Option-cases, inl, inr,
}
use vectro.Log.{
  LogMessage, Writer, idle, sized, entering, Worker, at_loop, dispatching, reporting, draining,
  stopping, ended, crashed, LogAdapter, start, enqueue, process, Action, writes, works, registers,
  clears, limits, notifies_every, takes_dropped, stops, step, run,
}

abbrev pub in_hand : Worker → List LogMessage
in_hand (dispatching final left) = left
in_hand (crashed left) = left
in_hand _ = []

-- What has been dispatched, then the rest of the batch, then the queue.
abbrev pub in_order : LogAdapter → List LogMessage
in_order s = s.dispatched ++ (in_hand s.worker ++ s.queue)

-- The message that a writer's step puts into the queue.
abbrev entered : LogAdapter → Writer → List LogMessage
entered s (entering lm) = if leb s.max_queue_size (length s.queue) then [] else lm ∷ []
entered s _ = []

abbrev pub accepted : LogAdapter → Action → List LogMessage
accepted s (writes place lm) = elim (get_elem? s.writers place) [ none ↦ [] | some w ↦ entered s w ]
accepted s _ = []

abbrev pub all_accepted : LogAdapter → List Action → List LogMessage
all_accepted s [] = []
all_accepted s (a ∷ actions) = accepted s a ++ all_accepted (step s a) actions

enqueue-queue :
    (lm : LogMessage) (s : LogAdapter) (w : Writer)
    → ((enqueue lm s w).0.queue ≡ s.queue ++ entered s w)
      × ((enqueue lm s w).0.dispatched ≡ s.dispatched)
      × ((enqueue lm s w).0.worker ≡ s.worker)
unfolding enqueue
enqueue-queue lm s idle = (sym (append-nil s.queue), refl, refl)
enqueue-queue _ s (sized lm sz) = ground (arith, append-nil s.queue)
enqueue-queue _ s (entering lm) = ground (arith, append-nil s.queue)

process-in_order :
    (now : ℕ) (s : LogAdapter) (w : Worker) → s.worker ≡ w → in_order (process now s w) ≡ in_order s
unfolding process
process-in_order now s at_loop e = ground (arith, append-nil s.queue, e)
process-in_order now s (dispatching final []) e = rw e refl
process-in_order now s (dispatching final (lm ∷ rest)) e =
    ground (arith, e, append_assoc s.dispatched (lm ∷ []) (rest ++ s.queue))
process-in_order now s (reporting final) e = ground (arith, e)
process-in_order now s draining e = ground (arith, e, append-nil s.queue)
process-in_order now s stopping e = rw e refl
process-in_order now s ended e = refl
process-in_order now s (crashed left) e = refl

step-in_order : (s : LogAdapter) (a : Action) → in_order (step s a) ≡ in_order s ++ accepted s a
unfolding step
step-in_order s (writes place lm) = elim (Option-cases (get_elem? s.writers place)) [
  | inl gone ↦ rw (gone, step, accepted) (sym (append-nil (in_order s)))
  | inr (w, e) ↦
      rw (e, step, accepted)
        (grind (
          arith,
          enqueue-queue lm s w,
          append_assoc s.dispatched (in_hand s.worker ++ s.queue) (entered s w),
          append_assoc (in_hand s.worker) s.queue (entered s w),
        ))
]
step-in_order s (works now) = process-in_order now s s.worker refl ∙ sym (append-nil (in_order s))
step-in_order s (registers cb again) = ground (arith, append-nil (in_order s))
step-in_order s clears = sym (append-nil (in_order s))
step-in_order s (limits m) = sym (append-nil (in_order s))
step-in_order s (notifies_every interval) = sym (append-nil (in_order s))
step-in_order s takes_dropped = sym (append-nil (in_order s))
step-in_order s stops = sym (append-nil (in_order s))

pub run-in_order_from :
    (s : LogAdapter) (actions : List Action)
    → in_order (run s actions) ≡ in_order s ++ all_accepted s actions
unfolding run
run-in_order_from s [] = sym (append-nil (in_order s))
run-in_order_from s (a ∷ actions) =
    run-in_order_from (step s a) actions
    ∙ ap (λ ms. ms ++ all_accepted (step s a) actions) (step-in_order s a)
    ∙ append_assoc (in_order s) (accepted s a) (all_accepted (step s a) actions)

-- In any interleaving: the messages dispatched, then the rest of the worker's batch, then the queue are
-- exactly the messages that the queue has taken, in the order in which it took them.
pub run-dispatched :
    (now n : ℕ) (actions : List Action)
    → in_order (run (start now n) actions) ≡ all_accepted (start now n) actions
run-dispatched now n actions = run-in_order_from (start now n) actions
