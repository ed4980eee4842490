-- ===== src/Stream/WriteQueue/Order.antt =====
-- stream/write_queue_sg.h: the writes outstanding, and their order.
use mathlib.Core.List.{append_assoc, append-nil}
use vectro.Common.{
  without, All, ℕ, zero, suc, ◌≤◌, ◌≡◌, ◌⊎◌, inl, inr, refl, sym, ap, ◌∙◌, Bool, true, false,
  Option, none, some, List, [], ◌∷◌, ◌++◌, if◌then◌else◌, length, get_elem?, arith,
}
use vectro.Stream.WriteQueue.{
  Entry, Event, starts, calls, cancels, notify, do_write, is_full, on_written, System, Op, enables,
  sends, closes, completes, started, perform, step, run, start,
}

-- No close by force.
abbrev pub IsPolite : {B : Type 0} → Op B → Type 0
IsPolite (closes true) = ⊥
IsPolite op = Unit

-- Nor a write that fails.
abbrev IsSmooth : {B : Type 0} → Op B → Type 0
IsSmooth (closes true) = ⊥
IsSmooth (completes place true) = ⊥
IsSmooth op = Unit

module _ {B : Type 0} where
  -- At most one write is outstanding, and none while `writing_` is off, nor is anything queued then.
  pub record Inv (s : System B) : Type 0 where
    pub one : length s.in_flight ≤ 1
    pub idle : s.queue.writing ≡ false → (s.in_flight ≡ []) × (s.queue.write_queue ≡ [])

  pub started-notify : (h : Option ℕ) (success : Bool) → started {B = B} (notify h success) ≡ []
  started-notify none success = refl
  started-notify (some h) success = refl

  pub started-append : (xs ys : List (Event B)) → started (xs ++ ys) ≡ started xs ++ started ys
  started-append [] ys = refl
  started-append (starts e ∷ xs) ys = rw (started-append xs ys)
  started-append (calls h b ∷ xs) ys = started-append xs ys
  started-append (cancels ∷ xs) ys = started-append xs ys

  sends-Inv : (s : System B) (e : Entry B) → Inv s → Inv (step s (sends e))
  unfolding step
  sends-Inv s e v = ground (arith, started-notify e.handler false, append-nil s.in_flight)

  -- With one write outstanding at most, the one that completes is that one.
  only_one :
      (es : List (Entry B)) (i : ℕ)
      → length es ≤ 1
      → (get_elem? es i ≡ none)
        ⊎ ((e : Entry B) × (get_elem? es i ≡ some e) × (es ≡ e ∷ []) × (without i es ≡ []))
  only_one [] i h = inl refl
  only_one (e ∷ []) zero h = inr (e, refl, refl, refl)
  only_one (e ∷ []) (suc i) h = inl refl
  only_one (e ∷ d ∷ es) i h = absurd (omega arith)

  completed-Inv :
      (s : System B) (e : Entry B) (failed : Bool)
      → s.queue.writing ≡ true
      → Inv (perform (on_written e failed s.queue) (record s { in_flight = [] }))
  unfolding on_written
  completed-Inv s e true w = ground (arith, started-notify e.handler false)
  completed-Inv s e false w = ground (arith, e.handler)

  completes-Inv :
      (s : System B) (place : ℕ) (failed : Bool) → Inv s → Inv (step s (completes place failed))
  unfolding step
  completes-Inv s place failed v = elim (only_one s.in_flight place v.one) [
    | inl gone ↦ rw (gone, step) v
    | inr (e, at, only, left) ↦
        rw (at, step) (rw left (completed-Inv s e failed (ground (arith, v.idle, only))))
  ]

  pub step-Inv : (s : System B) (op : Op B) → IsPolite op → Inv s → Inv (step s op)
  unfolding step
  step-Inv s (enables enable) p v = record { one = v.one; idle = v.idle }
  step-Inv s (sends e) p v = sends-Inv s e v
  step-Inv s (closes true) p v = absurd p
  step-Inv s (closes false) p v = ground (arith, append-nil s.in_flight)
  step-Inv s (completes place failed) p v = completes-Inv s place failed v

  run-Inv_from : (s : System B) (ops : List (Op B)) → All IsPolite ops → Inv s → Inv (run s ops)
  unfolding run
  run-Inv_from s [] p v = v
  run-Inv_from s (op ∷ ops) p v = run-Inv_from (step s op) ops p.1 (step-Inv s op p.0 v)

  start-Inv : (n : ℕ) → Inv (start n)
  start-Inv n = record { one = omega arith; idle = λ e. (refl, refl) }

  -- In any run without a close by force, at most one `async_write` is outstanding, and while `writing_`
  -- is off none is, and nothing waits in the queue.
  pub run-Inv : (n : ℕ) (ops : List (Op B)) → All IsPolite ops → Inv (run (start n) ops)
  run-Inv n ops p = run-Inv_from (start n) ops p (start-Inv n)

  -- The writes that the queue takes.
  abbrev pub accepted : System B → Op B → List (Entry B)
  accepted s (sends e) = if is_full s.queue then [] else e ∷ []
  accepted s op = []

  abbrev pub all_accepted : System B → List (Op B) → List (Entry B)
  all_accepted s [] = []
  all_accepted s (op ∷ ops) = accepted s op ++ all_accepted (step s op) ops

  -- The writes started so far, and then those that wait.
  abbrev pub in_order : System B → List (Entry B)
  in_order s = started s.trace ++ s.queue.write_queue

  pub started_one :
      (trace : List (Event B)) (h : Option ℕ) (success : Bool)
      → started (trace ++ notify h success) ≡ started trace
  started_one trace h success =
      started-append trace (notify h success)
      ∙ ap (◌++◌ (started trace)) (started-notify h success)
      ∙ append-nil (started trace)

  sends-in_order :
      (s : System B) (e : Entry B)
      → Inv s
      → in_order (step s (sends e)) ≡ in_order s ++ accepted s (sends e)
  unfolding step
  sends-in_order s e v = ground (
    arith,
    v.idle,
    started_one s.trace e.handler false,
    append-nil s.trace,
    append-nil (in_order s),
    append-nil (started s.trace),
    append-nil (started s.trace ++ e ∷ []),
    append_assoc (started s.trace) s.queue.write_queue (e ∷ []),
    started-append s.trace (starts e ∷ []),
  )

  completed-in_order :
      (s : System B) (e : Entry B)
      → in_order (perform (on_written e false s.queue) (record s { in_flight = [] })) ≡ in_order s
  unfolding on_written
  completed-in_order s e = ground (
    arith,
    started_one s.trace e.handler true,
    append-nil (notify {B = B} e.handler true),
    append-nil (started s.trace),
    started-append s.trace (notify e.handler true ++ (do_write s.queue).1),
    started-append (notify e.handler true) ((do_write s.queue).1),
    started-notify e.handler true,
    append_assoc (started s.trace) (started ((do_write s.queue).1))
        (do_write s.queue).0.write_queue,
  )

  completes-in_order :
      (s : System B) (place : ℕ)
      → Inv s
      → in_order (step s (completes place false)) ≡ in_order s ++ []
  unfolding step
  completes-in_order s place v = elim (only_one s.in_flight place v.one) [
    | inl gone ↦ rw (gone, step) (sym (append-nil (in_order s)))
    | inr (e, at, only, left) ↦
        rw (at, step) (completed-in_order s e ∙ sym (append-nil (in_order s)))
  ]

  step-in_order :
      (s : System B) (op : Op B)
      → IsSmooth op
      → Inv s
      → in_order (step s op) ≡ in_order s ++ accepted s op
  unfolding step
  step-in_order s (enables enable) p v = sym (append-nil (in_order s))
  step-in_order s (sends e) p v = sends-in_order s e v
  step-in_order s (closes true) p v = absurd p
  step-in_order s (closes false) p v = ground (arith, append-nil s.trace, append-nil (in_order s))
  step-in_order s (completes place true) p v = absurd p
  step-in_order s (completes place false) p v = completes-in_order s place v

  IsSmooth-IsPolite : (op : Op B) → IsSmooth op → IsPolite op
  IsSmooth-IsPolite (enables b) p = tt
  IsSmooth-IsPolite (sends e) p = tt
  IsSmooth-IsPolite (closes true) p = p
  IsSmooth-IsPolite (closes false) p = tt
  IsSmooth-IsPolite (completes place failed) p = tt

  run-in_order_from :
      (s : System B) (ops : List (Op B))
      → All IsSmooth ops
      → Inv s
      → in_order (run s ops) ≡ in_order s ++ all_accepted s ops
  unfolding run
  run-in_order_from s [] p v = sym (append-nil (in_order s))
  run-in_order_from s (op ∷ ops) p v =
      run-in_order_from (step s op) ops p.1 (step-Inv s op (IsSmooth-IsPolite op p.0) v)
      ∙ ap (λ es. es ++ all_accepted (step s op) ops) (step-in_order s op p.0 v)
      ∙ append_assoc (in_order s) (accepted s op) (all_accepted (step s op) ops)

  -- In any run without a close by force and without a failed write, the writes that were started, and
  -- then those that wait, are exactly the sends that backpressure did not refuse, in their order.
  pub run-in_order :
      (n : ℕ) (ops : List (Op B))
      → All IsSmooth ops
      → in_order (run (start n) ops) ≡ all_accepted (start n) ops
  run-in_order n ops p = run-in_order_from (start n) ops p (start-Inv n)
