-- ===== src/Session/Writes.antt =====
-- session.h: the direct write path, from AsyncSend to the handler of async_write.
use mathlib.Core.List.{append_assoc, append-nil}
use vectro.Common.{
  ℕ, zero, suc, ◌≤◌, ◌<◌, ◌≡◌, sym, ◌⊎◌, ◌∙◌, refl, ap, true, false, not, ◌&&◌, none, some, List,
  [], ◌∷◌, ◌++◌, map, length, length-append, List-cases, replicate, arith, Bool-cases, inl, inr,
  if◌then◌else◌,
}
use vectro.Session.{
  Event, messages, disconnects, writes, Session, create, Action, starts, sets_bundle, enables,
  sends, closes, reads, read_expires, idle_expires, read_times_out, idle_times_out, written,
  queue_writes, step, run,
}
use vectro.Session.Disconnect.{run-IsFrozen}

module _ {B M : Type 0} where
  -- The buffers that were handed to `async_write`, in order.
  abbrev pub handed : List (Event B M) → List B
  handed [] = []
  handed (writes b ∷ evs) = b ∷ handed evs
  handed (messages m ∷ evs) = handed evs
  handed (disconnects ∷ evs) = handed evs

  handed-append : (xs ys : List (Event B M)) → handed (xs ++ ys) ≡ handed xs ++ handed ys
  handed-append [] ys = refl
  handed-append (writes b ∷ xs) ys = rw (handed-append xs ys) refl
  handed-append (messages m ∷ xs) ys = handed-append xs ys
  handed-append (disconnects ∷ xs) ys = handed-append xs ys

  handed_messages : (ms : List M) → handed (map messages ms) ≡ []
  handed_messages [] = refl
  handed_messages (m ∷ ms) = handed_messages ms

  -- What an action adds to the direct path: the framed message that passes the interceptor.
  abbrev accepts : Session B M → Action B M → List B
  accepts s (sends passes (some b)) =
      if (s.interceptor && not passes)
      then []
      else if s.framer && not s.use_write_queue
      then b ∷ []
      else []
  accepts s _ = []

  abbrev pub accepted : Session B M → List (Action B M) → List B
  accepted s [] = []
  accepted s (a ∷ actions) = accepts s a ++ accepted (step s a) actions

  -- What the flags say of the writes that are outstanding.
  pub record IsSerial (s : Session B M) : Type 0 where
    pub most : length s.in_flight ≤ 1
    pub rests : s.write_in_progress ≡ false → length s.in_flight ≡ 0
    pub moves : s.shutdown_in_progress ≡ false → s.write_in_progress ≡ true → length s.in_flight ≡ 1
    pub drained : s.shutdown_in_progress ≡ false → s.write_in_progress ≡ false → s.write_deque ≡ []

  pub step-IsSerial : (s : Session B M) (a : Action B M) → IsSerial s → IsSerial (step s a)
  unfolding step
  step-IsSerial s (starts peer m d) i = ground (arith, i)
  step-IsSerial s (sets_bundle interceptor) i = ground (arith, i)
  step-IsSerial s (enables enable) i = ground (arith, i)
  step-IsSerial s (sends passes none) i = grind (arith, i)
  step-IsSerial s (sends passes (some b)) i = grind (arith, i, length-append)
  step-IsSerial s (closes force) i = ground (arith, i)
  step-IsSerial s (reads failed msgs) i = ground (arith, i)
  step-IsSerial s read_expires i = ground (arith, i)
  step-IsSerial s idle_expires i = ground (arith, i)
  step-IsSerial s read_times_out i = ground (arith, i)
  step-IsSerial s idle_times_out i = ground (arith, i)
  step-IsSerial s (written failed) i = grind (arith, i, length-append)
  step-IsSerial s (queue_writes place failed) i = ground (arith, i)

  -- The buffers on their way: handed over, or still waiting.
  abbrev pub flow : Session B M → List B
  flow s = handed s.trace ++ s.write_deque

  step-flow :
      (s : Session B M) (a : Action B M)
      → (step s a).shutdown_in_progress ≡ false
      → flow (step s a) ≡ flow s ++ accepts s a
  unfolding step
  step-flow s (starts peer m d) h = grind (arith, h, append-nil)
  step-flow s (sets_bundle interceptor) h = grind (arith, h, append-nil)
  step-flow s (enables enable) h = grind (arith, h, append-nil)
  step-flow s (sends passes none) h = grind (arith, h, append-nil)
  step-flow s (sends passes (some b)) h = grind (arith, h, append-nil, append_assoc, handed-append)
  step-flow s (closes force) h = grind (arith, h, append-nil)
  step-flow s (reads failed none) h = grind (arith, h, append-nil, handed-append)
  step-flow s (reads failed (some ms)) h =
      grind (arith, h, append-nil, handed-append, handed_messages)
  step-flow s read_expires h = grind (arith, h, append-nil)
  step-flow s idle_expires h = grind (arith, h, append-nil)
  step-flow s read_times_out h = grind (arith, h, append-nil)
  step-flow s idle_times_out h = grind (arith, h, append-nil)
  step-flow s (written failed) h = grind (arith, h, append-nil, append_assoc, handed-append)
  step-flow s (queue_writes place failed) h = grind (arith, h, append-nil)

  -- No handler withdraws a shutdown.
  was_alive :
      (s : Session B M) (actions : List (Action B M))
      → (run s actions).shutdown_in_progress ≡ false
      → s.shutdown_in_progress ≡ false
  was_alive s actions h = elim (Bool-cases s.shutdown_in_progress) [
    | inl over ↦ cc (h, (run-IsFrozen s actions over).shut)
    | inr alive ↦ alive
  ]

  pub run-flow :
      (s : Session B M) (actions : List (Action B M))
      → (run s actions).shutdown_in_progress ≡ false
      → flow (run s actions) ≡ flow s ++ accepted s actions
  unfolding run
  run-flow s [] h = sym (append-nil (flow s))
  run-flow s (a ∷ actions) h =
      run-flow (step s a) actions h
      ∙ ap (λ xs. xs ++ accepted (step s a) actions)
          (step-flow s a (was_alive (step s a) actions h))
      ∙ append_assoc (flow s) (accepts s a) (accepted (step s a) actions)

  pub run-IsSerial :
      (s : Session B M) (actions : List (Action B M)) → IsSerial s → IsSerial (run s actions)
  unfolding run
  run-IsSerial s [] i = i
  run-IsSerial s (a ∷ actions) i = run-IsSerial (step s a) actions (step-IsSerial s a i)

  pub create-IsSerial : IsSerial (create {B = B} {M = M})
  create-IsSerial = ground arith

  -- In any run, at most one write of the direct path is outstanding.
  pub run-in_flight : (actions : List (Action B M)) → length (run create actions).in_flight ≤ 1
  run-in_flight actions = (run-IsSerial create actions create-IsSerial).most

  step_still : (s : Session B M) → s.in_flight ≡ [] → step s (written false) ≡ s
  unfolding step
  step_still s f = cc f

  -- Where nothing is outstanding, completions change nothing.
  pub run_still :
      (s : Session B M) (n : ℕ) → s.in_flight ≡ [] → run s (replicate n (written false)) ≡ s
  unfolding run
  run_still s zero f = refl
  run_still s (suc n) f =
      ap (λ t. run t (replicate n (written false))) (step_still s f) ∙ run_still s n f

  -- One completion: nothing is left, or the next write has begun.
  written-write_deque :
      (s : Session B M) (b : B) (fl d : List B)
      → s.shutdown_in_progress ≡ false
      → IsSerial s
      → s.in_flight ≡ b ∷ fl
      → s.write_deque ≡ d
      → (let t = step s (written false) in
          (flow t ≡ flow s)
          × ((t.in_flight ≡ []) × (t.write_deque ≡ [])
              ⊎ (t.shutdown_in_progress ≡ false) × (length t.write_deque < length s.write_deque)))
  unfolding step
  written-write_deque s b [] [] h i f e = grind (arith, h, f, e)
  written-write_deque s b [] (c ∷ cs) h i f e = grind (arith, h, f, e, handed-append, append_assoc)
  written-write_deque s b (x ∷ xs) d h i f e = absurd (omega (arith, i.most, ap length f))

  nothing_left :
      (s : Session B M)
      → s.shutdown_in_progress ≡ false
      → IsSerial s
      → s.in_flight ≡ []
      → s.write_deque ≡ []
  nothing_left s h i f = elim (Bool-cases s.write_in_progress) [
    | inl busy ↦ absurd (omega (arith, i.moves h busy, ap length f))
    | inr free ↦ i.drained h free
  ]

  still-flow :
      (n : ℕ) (s : Session B M)
      → s.in_flight ≡ []
      → s.write_deque ≡ []
      → handed (run s (replicate n (written false))).trace ≡ flow s
  still-flow n s f d =
      ap (λ t. handed t.trace) (run_still s n f)
      ∙ sym (append-nil (handed s.trace))
      ∙ ap (λ d. handed s.trace ++ d) (sym d)

  pub run_drained :
      (n : ℕ) (s : Session B M)
      → s.shutdown_in_progress ≡ false
      → IsSerial s
      → length s.write_deque < n
      → handed (run s (replicate n (written false))).trace ≡ flow s
  unfolding run
  run_drained zero s h i lt = absurd (omega (arith, lt))
  run_drained (suc n) s h i lt = elim (List-cases s.in_flight) [
    | inl f ↦ still-flow (suc n) s f (nothing_left s h i f)
    | inr (b, fl, f) ↦
        let (same, left) = written-write_deque s b fl s.write_deque h i f refl in
        elim left [
          | inl (over, none_left) ↦ still-flow n (step s (written false)) over none_left ∙ same
          | inr (alive, fewer) ↦
              run_drained n (step s (written false)) alive (step-IsSerial s (written false) i)
                (omega (arith, lt, fewer))
              ∙ same
        ]
  ]

  -- Where no shutdown has begun, after more successful completions than buffers wait, what was handed
  -- to `async_write` is the framed buffers of the direct path's sends that the interceptor let pass,
  -- whole and in order.
  pub run-accepted :
      (actions : List (Action B M)) (n : ℕ)
      → (run create actions).shutdown_in_progress ≡ false
      → length (run create actions).write_deque < n
      → handed (run (run create actions) (replicate n (written false))).trace
        ≡ accepted create actions
  run-accepted actions n h lt =
      run_drained n (run create actions) h (run-IsSerial create actions create-IsSerial) lt
      ∙ run-flow create actions h
