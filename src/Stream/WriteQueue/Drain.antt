-- ===== src/Stream/WriteQueue/Drain.antt =====
-- stream/write_queue_sg.h: the bound on the queue, what a refused write leaves behind, and how a
-- queue drains.
use mathlib.Core.List.{append_assoc, append-nil}
use vectro.Common.{
  without, Option-cases, ℕ, zero, suc, ◌≤◌, ◌≡◌, inl, inr, refl, ap, ◌∙◌, Bool, true, false, List,
  [], ◌∷◌, ◌++◌, length, length-append, get_elem?, arith, All,
}
use vectro.Stream.WriteQueue.{
  Entry, starts, notify, is_full, on_written, System, Op, enables, sends, closes, completes,
  started, perform, step, run, start,
}
use vectro.Stream.WriteQueue.Order.{started_one, started-append, started-notify}

module _ {B : Type 0} where
  -- Backpressure is never switched off.
  abbrev IsBounding : Op B → Type 0
  IsBounding (enables false) = ⊥
  IsBounding op = Unit

  pub record IsBounded (n : ℕ) (s : System B) : Type 0 where
    pub enabled : s.queue.max_queue_enabled ≡ true
    pub limit : s.queue.max_queue_size ≡ n
    pub bounded : length s.queue.write_queue ≤ n

  completed-IsBounded :
      (n : ℕ) (s : System B) (e : Entry B) (failed : Bool) (left : List (Entry B))
      → IsBounded n s
      → IsBounded n (perform (on_written e failed s.queue) (record s { in_flight = left }))
  unfolding on_written
  completed-IsBounded n s e true left b = ground arith
  completed-IsBounded n s e false left b = ground arith

  step-IsBounded :
      (n : ℕ) (s : System B) (op : Op B) → IsBounding op → IsBounded n s → IsBounded n (step s op)
  unfolding step
  step-IsBounded n s (enables true) p b = ground arith
  step-IsBounded n s (enables false) p b = absurd p
  step-IsBounded n s (sends e) p b = ground (arith, length-append s.queue.write_queue (e ∷ []))
  step-IsBounded n s (closes true) p b = ground arith
  step-IsBounded n s (closes false) p b = ground arith
  step-IsBounded n s (completes place failed) p b =
      elim (Option-cases (get_elem? s.in_flight place)) [
        | inl gone ↦ rw (gone, step) b
        | inr (e, at) ↦
            rw (at, step) (completed-IsBounded n s e failed (without place s.in_flight) b)
      ]

  run-IsBounded_from :
      (n : ℕ) (s : System B) (ops : List (Op B))
      → All IsBounding ops
      → IsBounded n s
      → IsBounded n (run s ops)
  unfolding run
  run-IsBounded_from n s [] p b = b
  run-IsBounded_from n s (op ∷ ops) p b =
      run-IsBounded_from n (step s op) ops p.1 (step-IsBounded n s op p.0 b)

  -- In any run in which backpressure is not switched off, the queue never holds more than
  -- `max_queue_size_` writes.
  run-IsBounded : (n : ℕ) (ops : List (Op B)) → All IsBounding ops → IsBounded n (run (start n) ops)
  run-IsBounded n ops p =
      run-IsBounded_from n (start n) ops p
        (record { enabled = refl; limit = refl; bounded = omega arith })

  -- A send to a full queue only calls its handler.
  sends_full :
      (s : System B) (e : Entry B)
      → is_full s.queue ≡ true
      → step s (sends e) ≡ perform (s.queue, notify e.handler false) s
  unfolding step
  sends_full s e full = rw (full, step)

  -- `k` writes end well, one after another.
  abbrev pub successes : ℕ → List (Op B)
  successes zero = []
  successes (suc k) = completes 0 false ∷ successes k

  success_last :
      (s : System B) (e : Entry B)
      → s.queue.write_queue ≡ []
      → s.in_flight ≡ e ∷ []
      → ((step s (completes 0 false)).queue.write_queue ≡ [])
        × ((step s (completes 0 false)).queue.writing ≡ false)
        × ((step s (completes 0 false)).in_flight ≡ [])
        × (started (step s (completes 0 false)).trace ≡ started s.trace)
  unfolding step
  success_last s e w f = ground (
    arith,
    started_one s.trace e.handler true,
    started-notify {B = B} e.handler true,
    append-nil (notify {B = B} e.handler true),
  )

  success_next :
      (s : System B) (e d : Entry B) (waiting : List (Entry B))
      → s.queue.write_queue ≡ d ∷ waiting
      → s.in_flight ≡ e ∷ []
      → ((step s (completes 0 false)).queue.write_queue ≡ waiting)
        × ((step s (completes 0 false)).in_flight ≡ d ∷ [])
        × (started (step s (completes 0 false)).trace ≡ started s.trace ++ d ∷ [])
  unfolding step
  success_next s e d waiting w f = ground (
    arith,
    started-append (notify {B = B} e.handler true) (starts d ∷ []),
    started-append s.trace (notify {B = B} e.handler true ++ starts d ∷ []),
    started-notify {B = B} e.handler true,
  )

  -- With one write outstanding and `k` waiting, `k + 1` completions without an error empty the queue:
  -- all that waited has been started, in its order, none is outstanding, and `writing_` is off.
  pub run-successes :
      (waiting : List (Entry B)) (s : System B) (e : Entry B)
      → s.queue.write_queue ≡ waiting
      → s.in_flight ≡ e ∷ []
      → ((run s (successes (suc (length waiting)))).queue.write_queue ≡ [])
        × ((run s (successes (suc (length waiting)))).queue.writing ≡ false)
        × ((run s (successes (suc (length waiting)))).in_flight ≡ [])
        × (started (run s (successes (suc (length waiting)))).trace ≡ started s.trace ++ waiting)
  unfolding run
  run-successes [] s e w f = ground (arith, success_last s e w f, append-nil (started s.trace))
  run-successes (d ∷ waiting) s e w f =
      let next = success_next s e d waiting w f in
      let rest = run-successes waiting (step s (completes 0 false)) d next.0 next.1 in
      (
        rest.0,
        rest.1,
        rest.2,
        rest.3 ∙ ap (λ es. es ++ waiting) next.2 ∙ append_assoc (started s.trace) (d ∷ []) waiting,
      )
