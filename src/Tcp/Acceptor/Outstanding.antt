-- ===== src/Tcp/Acceptor/Outstanding.antt =====
-- tcp/tcp_acceptor_loop.h: the accepts that are outstanding, against the calls of `Start`.
use vectro.Common.{
  if◌then◌else◌, ℕ, zero, suc, ◌+◌, ◌≡◌, refl, inl, inr, Bool, true, false, Option, none, some,
  List, [], ◌∷◌, length, length-append, length-set, length-map, length-without, get_elem?, without,
  total, total-append, arith, Option-cases,
}
use vectro.Tcp.Acceptor.{
  Post, accepts_next, shuts, drains, subscribes, Outcome, failed, connected, Timer, waiting,
  expired, canceled, handled, Accept, AcceptorLoop, Action, starts, stops, enables_draining,
  sets_drain_callback, runs, completes, expires, accepts_at, times_out, takes_id, stop_timer,
  at_timer, create, abort, do_accept, on_outcome, on_accept, on_timer, on_post, step, run,
}

abbrev is_next : Post → ℕ
is_next accepts_next = 1
is_next _ = 0

total-without :
    (ps : List Post) (i : ℕ) (p : Post)
    → get_elem? ps i ≡ some p
    → total is_next (without i ps) + is_next p ≡ total is_next ps
total-without [] i p e = ground arith
total-without (q ∷ ps) zero p e = ground arith
total-without (q ∷ ps) (suc i) p e = omega (arith, total-without ps i p e)

module _ {E : Type 0} where
  -- The accepts that are outstanding or dispatched.
  abbrev pub slots : AcceptorLoop E → ℕ
  slots s = length s.accepts + total is_next s.posts

  abbrev is_start : Action E → ℕ
  is_start starts = 1
  is_start _ = 0

  -- The calls of `Start`.
  abbrev pub start_calls : List (Action E) → ℕ
  start_calls = total is_start

  -- While the loop is not stopped, nothing is lost.
  record Keeps (n : ℕ) (s t : AcceptorLoop E) : Type 0 where
    earlier : t.stopped ≡ false → s.stopped ≡ false
    slots : t.stopped ≡ false → slots t ≡ slots s + n

  on_outcome-Keeps : (o : Outcome E) (s : AcceptorLoop E) → Keeps 0 s (on_outcome o s)
  unfolding on_outcome
  on_outcome-Keeps failed s = ground arith
  on_outcome-Keeps (connected none) s = ground arith
  on_outcome-Keeps (connected (some remote)) s = ground arith

  do_accept-Keeps : (s : AcceptorLoop E) → Keeps 1 s (do_accept s)
  unfolding do_accept
  do_accept-Keeps s = grind (arith, length-append s.accepts)

  on_post-Keeps : (now : ℕ) (p : Post) (s : AcceptorLoop E) → Keeps (is_next p) s (on_post now p s)
  unfolding on_post
  on_post-Keeps now accepts_next s = do_accept-Keeps s
  on_post-Keeps now shuts s = ground arith
  on_post-Keeps now (drains enable) s = ground arith
  on_post-Keeps now (subscribes cb) s = ground arith

  on_timer-Keeps : (i : ℕ) (t : Timer) (s : AcceptorLoop E) → Keeps 0 s (on_timer i t s)
  on_timer-Keeps i waiting s = ground arith
  on_timer-Keeps i expired s = grind (arith, length-map abort s.accepts)
  on_timer-Keeps i canceled s = ground arith
  on_timer-Keeps i handled s = ground arith

  -- The handler of an accept starts the next one.
  on_accept-Keeps :
      (place : ℕ) (a : Accept E) (o : Outcome E) (s : AcceptorLoop E)
      → get_elem? s.accepts place ≡ some a
      → Keeps 0 s (on_accept place a o s)
  unfolding on_accept
  on_accept-Keeps place a o s e = by_stopped s.stopped refl
    where
      t : AcceptorLoop E
      t = record s {
        accepts = without place s.accepts;
        timers = at_timer stop_timer a.timer s.timers;
      }

      by_stopped :
          (b : Bool) → s.stopped ≡ b → Keeps 0 s (if b then t else do_accept (on_outcome o t))
      by_stopped true on = record { earlier = λ h. h; slots = λ h. ground (arith, on, h) }
      by_stopped false off =
          let out = on_outcome-Keeps o t in
          let next = do_accept-Keeps (on_outcome o t) in
          record {
            earlier = λ h. off;
            slots = λ h. omega (
              arith,
              length-without s.accepts place a e,
              out.slots (next.earlier h),
              next.slots h,
            );
          }

  step-Keeps : (s : AcceptorLoop E) (a : Action E) → Keeps (is_start a) s (step s a)
  unfolding step
  step-Keeps s starts = grind (arith, total-append is_next s.posts)
  step-Keeps s stops = grind (arith, total-append is_next s.posts)
  step-Keeps s (enables_draining enable) = grind (arith, total-append is_next s.posts)
  step-Keeps s (sets_drain_callback cb) = grind (arith, total-append is_next s.posts)
  step-Keeps s (runs place now) = elim (Option-cases (get_elem? s.posts place)) [
    | inl out ↦ rw (out, step) (ground arith)
    | inr (p, e) ↦
        let kept = on_post-Keeps now p (record s { posts = without place s.posts }) in
        rw (e, step)
          (record {
            earlier = kept.earlier;
            slots = λ h. omega (arith, total-without s.posts place p e, kept.slots h);
          })
  ]
  step-Keeps s (completes place o) = elim (Option-cases (get_elem? s.accepts place)) [
    | inl out ↦ rw (out, step) (ground arith)
    | inr (a, e) ↦ elim (Option-cases a.outcome) [
      | inl none_yet ↦
          let len = length-set s.accepts place (record { timer = a.timer; outcome = some o }) in
          rw (e, none_yet, step) (ground (arith, len))
      | inr (ended, e') ↦ rw (e, e', step) (ground arith)
    ]
  ]
  step-Keeps s (expires i) = ground arith
  step-Keeps s (accepts_at place) = elim (Option-cases (get_elem? s.accepts place)) [
    | inl out ↦ rw (out, step) (ground arith)
    | inr (a, e) ↦ elim (Option-cases a.outcome) [
      | inl none_yet ↦ rw (e, none_yet, step) (ground arith)
      | inr (o, e') ↦ rw (e, e', step) (on_accept-Keeps place a o s e)
    ]
  ]
  step-Keeps s (times_out i) = elim (Option-cases (get_elem? s.timers i)) [
    | inl out ↦ rw (out, step) (ground arith)
    | inr (t, e) ↦ rw (e, step) (on_timer-Keeps i t s)
  ]
  step-Keeps s takes_id = ground arith

  run-Keeps :
      (actions : List (Action E)) (s : AcceptorLoop E)
      → Keeps (start_calls actions) s (run s actions)
  unfolding run
  run-Keeps [] s = ground arith
  run-Keeps (a ∷ actions) s =
      let first = step-Keeps s a in
      let later = run-Keeps actions (step s a) in
      record {
        earlier = λ h. first.earlier (later.earlier h);
        slots = λ h. omega (arith, first.slots (later.earlier h), later.slots h);
      }

  -- From the constructor on, in any interleaving of calls, handlers and events, as long as the loop is
  -- not stopped: the accepts outstanding, with those dispatched to the strand, are as many as the
  -- calls of `Start`. No error, refusal, drain or timeout ends the loop, and none adds an accept.
  pub run-slots :
      (port : ℕ) (filter : Option (E → Bool)) (actions : List (Action E))
      → (run (create port filter) actions).stopped ≡ false
      → slots (run (create port filter) actions) ≡ start_calls actions
  run-slots port filter actions running =
      omega (arith, (run-Keeps actions (create port filter)).slots running)
