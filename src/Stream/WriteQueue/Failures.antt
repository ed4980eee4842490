-- ===== src/Stream/WriteQueue/Failures.antt =====
-- stream/write_queue_sg.h after a write fails, and after a close by force.
use mathlib.Core.List.{append-nil}
use vectro.Common.{◌<◌, ◌≡◌, refl, ap, ◌∙◌, true, false, List, [], ◌∷◌, ◌++◌, arith, All}
use vectro.Stream.WriteQueue.{
  Entry, notify, System, Op, enables, sends, closes, completes, started, step, run,
}
use vectro.Stream.WriteQueue.Order.{IsPolite, started_one}

module _ {B : Type 0} where
  -- `writing_` is on, and no write is outstanding whose completion could turn it off.
  pub record IsStuck (s : System B) : Type 0 where
    pub busy : s.queue.writing ≡ true
    pub quiet : s.in_flight ≡ []

  completes_failed :
      (s : System B) (e : Entry B)
      → s.in_flight ≡ e ∷ []
      → s.queue.writing ≡ true
      → IsStuck (step s (completes 0 true))
        × ((step s (completes 0 true)).queue.write_queue ≡ [])
        × ((step s (completes 0 true)).trace ≡ s.trace ++ notify e.handler false)
  unfolding step
  completes_failed s e f w = ground (arith, f, w, started_one s.trace e.handler false)

  step-IsStuck :
      (s : System B) (op : Op B)
      → IsPolite op
      → IsStuck s
      → IsStuck (step s op) × (started (step s op).trace ≡ started s.trace)
  unfolding step
  step-IsStuck s (enables enable) p k = (record { busy = k.busy; quiet = k.quiet }, refl)
  step-IsStuck s (sends e) p k =
      ground (arith, k.busy, k.quiet, started_one s.trace e.handler false, append-nil s.trace)
  step-IsStuck s (closes true) p k = absurd p
  step-IsStuck s (closes false) p k = ground (arith, k.busy, k.quiet, append-nil s.trace)
  step-IsStuck s (completes place failed) p k = ground (arith, k.busy, k.quiet)

  run-IsStuck :
      (s : System B) (ops : List (Op B))
      → All IsPolite ops
      → IsStuck s
      → IsStuck (run s ops) × (started (run s ops).trace ≡ started s.trace)
  unfolding run
  run-IsStuck s [] p k = (k, refl)
  run-IsStuck s (op ∷ ops) p k =
      let now = step-IsStuck s op p.0 k in
      let later = run-IsStuck (step s op) ops p.1 now.0 in (later.0, later.1 ∙ now.1)

  -- When the only outstanding write fails while `writing_` is on, the queue is cleared, and of the
  -- handlers only that write's is called; without a close by force, nothing that is sent later is ever written, and `writing_` stays
  -- on.
  pub failed_write_stops :
      (s : System B) (e : Entry B) (ops : List (Op B))
      → s.in_flight ≡ e ∷ []
      → s.queue.writing ≡ true
      → All IsPolite ops
      → ((step s (completes 0 true)).queue.write_queue ≡ [])
        × ((step s (completes 0 true)).trace ≡ s.trace ++ notify e.handler false)
        × (started (run (step s (completes 0 true)) ops).trace ≡ started s.trace)
        × ((run (step s (completes 0 true)) ops).queue.writing ≡ true)
  failed_write_stops s e ops f w p =
      let (stuck, empty, traced) = completes_failed s e f w in
      let after = run-IsStuck (step s (completes 0 true)) ops p stuck in
      (
        empty,
        traced,
        after.1 ∙ ap started traced ∙ started_one s.trace e.handler false,
        after.0.busy,
      )

  -- A send after a close by force, while the cancelled write has not yet completed and with a queue
  -- size above 0, begins a second `async_write` next to the first.
  force_close_overlap :
      (s : System B) (e d : Entry B)
      → s.in_flight ≡ e ∷ []
      → 0 < s.queue.max_queue_size
      → (run s (closes true ∷ sends d ∷ [])).in_flight ≡ e ∷ d ∷ []
  unfolding run step
  force_close_overlap s e d f room = ground (arith, f)
