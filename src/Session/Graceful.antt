-- ===== src/Session/Graceful.antt =====
-- session.h: Close(false) on the direct write path.
use mathlib.Core.List.{append-nil}
use vectro.Common.{
  ℕ, zero, suc, ◌<◌, ◌≡◌, ◌∙◌, refl, sym, ap, true, false, inl, inr, List, [], ◌∷◌, ◌++◌, length,
  List-cases, replicate, arith, Bool-cases,
}
use vectro.Session.{Session, create, close, Action, closes, written, step, run}
use vectro.Session.Disconnect.{run-IsFrozen}
use vectro.Session.Writes.{
  handed, accepted, IsSerial, step-IsSerial, run-IsSerial, create-IsSerial, flow, run-flow,
  run_drained, run_still,
}

single : {B : Type 0} (xs : List B) → length xs ≡ 1 → (x : B) × (xs ≡ x ∷ [])
single [] e = absurd (omega (arith, e))
single (x ∷ []) e = (x, refl)
single (x ∷ y ∷ rest) e = absurd (omega (arith, e))

none_of : {B : Type 0} (xs : List B) → length xs ≡ 0 → xs ≡ []
none_of [] e = refl
none_of (x ∷ xs) e = absurd (omega (arith, e))

module _ {B M : Type 0} where
  -- The last completion closes the socket.
  written-closes :
      (s : Session B M) (b : B)
      → s.shutdown_in_progress ≡ false
      → s.graceful_shutdown ≡ true
      → s.in_flight ≡ b ∷ []
      → s.write_deque ≡ []
      → ((step s (written false)).socket_open ≡ false)
        × ((step s (written false)).shutdown_in_progress ≡ true)
  unfolding step
  written-closes s b h g f e = grind (arith, h, g, f, e)

  written-continues :
      (s : Session B M) (b c : B) (rest : List B)
      → s.shutdown_in_progress ≡ false
      → s.graceful_shutdown ≡ true
      → s.in_flight ≡ b ∷ []
      → s.write_deque ≡ c ∷ rest
      → (let t = step s (written false) in
          (t.shutdown_in_progress ≡ false)
          × (t.graceful_shutdown ≡ true)
          × (t.in_flight ≡ c ∷ [])
          × (t.write_deque ≡ rest))
  unfolding step
  written-continues s b c rest h g f e = grind (arith, h, g, f, e)

  run_closes :
      (n : ℕ) (s : Session B M) (b : B)
      → s.shutdown_in_progress ≡ false
      → s.graceful_shutdown ≡ true
      → s.in_flight ≡ b ∷ []
      → length s.write_deque < n
      → (run s (replicate n (written false))).socket_open ≡ false
  unfolding run
  run_closes zero s b h g f lt = absurd (omega (arith, lt))
  run_closes (suc n) s b h g f lt = elim (List-cases s.write_deque) [
    | inl e ↦
        let (closed, shut) = written-closes s b h g f e in
        (run-IsFrozen (step s (written false)) (replicate n (written false)) shut).socket ∙ closed
    | inr (c, rest, e) ↦
        let (h2, g2, f2, e2) = written-continues s b c rest h g f e in
        run_closes n (step s (written false)) c h2 g2 f2
          (omega (arith, lt, ap length e, ap length e2))
  ]

  -- `Close(false)` with a write outstanding only sets the flag and ends the timers.
  close-waits :
      (s : Session B M)
      → s.shutdown_in_progress ≡ false
      → s.use_write_queue ≡ false
      → s.write_in_progress ≡ true
      → (let t = close false s in
          (t.shutdown_in_progress ≡ false)
          × (t.graceful_shutdown ≡ true)
          × (t.in_flight ≡ s.in_flight)
          × (t.write_deque ≡ s.write_deque)
          × (t.trace ≡ s.trace))
  unfolding close
  close-waits s h q w = ground (arith, h, q, w)

  -- and with none outstanding and none waiting, it closes.
  close-closes :
      (s : Session B M)
      → s.shutdown_in_progress ≡ false
      → s.use_write_queue ≡ false
      → s.write_in_progress ≡ false
      → s.write_deque ≡ []
      → (let t = close false s in
          (t.shutdown_in_progress ≡ true)
          × (t.socket_open ≡ false)
          × (t.in_flight ≡ s.in_flight)
          × (t.trace ≡ s.trace))
  unfolding close
  close-closes s h q w e = ground (arith, h, q, w, e)

  abbrev Drains : ℕ → Session B M → List B → Type 0
  Drains n t sent =
      ((run t (replicate n (written false))).socket_open ≡ false)
      × (handed (run t (replicate n (written false))).trace ≡ sent)

  close-Drains :
      (n : ℕ) (s : Session B M)
      → IsSerial s
      → s.shutdown_in_progress ≡ false
      → s.use_write_queue ≡ false
      → length s.write_deque < n
      → Drains n (close false s) (flow s)
  unfolding step
  close-Drains n s i h q lt = elim (Bool-cases s.write_in_progress) [
    | inl busy ↦
        let (x, f) = single s.in_flight (i.moves h busy) in
        let (alive, g, fl, d, tr) = close-waits s h q busy in
        let fewer : length (close false s).write_deque < n = omega (arith, lt, ap length d) in
        (
          run_closes n (close false s) x alive g (fl ∙ f) fewer,
          run_drained n (close false s) alive (step-IsSerial s (closes false) i) fewer ∙ cc (d, tr),
        )
    | inr free ↦
        let e = i.drained h free in
        let (shut, closed, fl, tr) = close-closes s h q free e in
        let still = run_still (close false s) n (fl ∙ none_of s.in_flight (i.rests free)) in
        (
          ap (λ t. t.socket_open) still ∙ closed,
          ap (λ t. handed t.trace) still
              ∙ ap handed tr
              ∙ sym (append-nil (handed s.trace))
              ∙ ap (λ d. handed s.trace ++ d) (sym e),
        )
  ]

  -- Where no shutdown has begun and the write queue is not in use, after `Close(false)` and more
  -- successful completions than buffers wait, the socket is closed, and what was handed to
  -- `async_write` is what the sends were accepted with, whole and in order.
  pub run-close :
      (actions : List (Action B M)) (n : ℕ)
      → (run create actions).shutdown_in_progress ≡ false
      → (run create actions).use_write_queue ≡ false
      → length (run create actions).write_deque < n
      → (let t = run (close false (run create actions)) (replicate n (written false)) in
          (t.socket_open ≡ false) × (handed t.trace ≡ accepted create actions))
  run-close actions n h q lt =
      let (closed, sent) =
        close-Drains n (run create actions) (run-IsSerial create actions create-IsSerial) h q lt in
      (closed, sent ∙ run-flow create actions h)
