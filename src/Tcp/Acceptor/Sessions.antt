-- ===== src/Tcp/Acceptor/Sessions.antt =====
-- tcp/tcp_acceptor_loop.h: the sessions that the loop starts.
use vectro.Common.{
  if◌then◌else◌, ℕ, ◌+◌, ◌^◌, ◌%◌, ◌≡◌, refl, ◌∙◌, inl, inr, Bool, true, false, ◌||◌, none, some,
  List, [], ◌∷◌, ◌++◌, get_elem?, without, arith, Option-cases, Bool-cases,
}
use vectro.Tcp.Acceptor.{
  Post, accepts_next, shuts, drains, subscribes, Outcome, failed, connected, Timer, Accept,
  AcceptorLoop, Action, starts, stops, enables_draining, sets_drain_callback, runs, completes,
  expires, accepts_at, times_out, takes_id, stop_timer, at_timer, do_accept, passes, on_outcome,
  on_accept, on_post, step, run,
}

-- What a step may do to the sessions: nothing, or one more, of a remote that passes the filter,
-- while the loop is neither stopped nor draining.
pub data Change {E : Type 0} (s t : AcceptorLoop E) : Type 0 where
  kept : t.sessions ≡ s.sessions → t.id_seq ≡ s.id_seq → Change s t
  taken : t.sessions ≡ s.sessions → t.id_seq ≡ (s.id_seq + 1) % 2 ^ 64 → Change s t
  added :
      (remote : E)
      → passes s.filter remote ≡ true
      → s.stopped ≡ false
      → s.draining ≡ false
      → t.sessions ≡ s.sessions ++ record { id = s.id_seq; remote = remote; port = s.port } ∷ []
      → t.id_seq ≡ (s.id_seq + 1) % 2 ^ 64
      → Change s t

module _ {E : Type 0} where
  pub record Steps (s t : AcceptorLoop E) : Type 0 where
    pub filter : t.filter ≡ s.filter
    pub port : t.port ≡ s.port
    pub change : Change s t
    pub stopped : s.stopped ≡ true → t.stopped ≡ true

  same : (s : AcceptorLoop E) → Steps s s
  same s = record { filter = refl; port = refl; change = kept refl refl; stopped = λ h. h }

  -- The same on what the sessions depend on.
  record Agrees (s t : AcceptorLoop E) : Type 0 where
    filter : t.filter ≡ s.filter
    port : t.port ≡ s.port
    stopped : t.stopped ≡ s.stopped
    draining : t.draining ≡ s.draining
    id_seq : t.id_seq ≡ s.id_seq
    sessions : t.sessions ≡ s.sessions

  do_accept-Agrees : (s : AcceptorLoop E) → Agrees s (do_accept s)
  unfolding do_accept
  do_accept-Agrees s = ground arith

  Agrees-Steps : {s t : AcceptorLoop E} → Agrees s t → Steps s t
  Agrees-Steps a = record {
    filter = a.filter;
    port = a.port;
    change = kept a.sessions a.id_seq;
    stopped = λ h. a.stopped ∙ h;
  }

  -- Such changes before and after a step.
  Change-after : {s t u : AcceptorLoop E} → Change s t → Agrees t u → Change s u
  Change-after (kept e i) a = kept (a.sessions ∙ e) (a.id_seq ∙ i)
  Change-after (taken e i) a = taken (a.sessions ∙ e) (a.id_seq ∙ i)
  Change-after (added r p st dr e i) a = added r p st dr (a.sessions ∙ e) (a.id_seq ∙ i)

  Steps-after : {s t u : AcceptorLoop E} → Steps s t → Agrees t u → Steps s u
  Steps-after h a = record {
    filter = a.filter ∙ h.filter;
    port = a.port ∙ h.port;
    change = Change-after h.change a;
    stopped = λ on. a.stopped ∙ h.stopped on;
  }

  Change-at :
      (s : AcceptorLoop E) (ps : List Post) (accs : List (Accept E)) (ts : List Timer)
      {u : AcceptorLoop E}
      → Change (record s { posts = ps; accepts = accs; timers = ts }) u
      → Change s u
  Change-at s ps accs ts (kept e i) = kept e i
  Change-at s ps accs ts (taken e i) = taken e i
  Change-at s ps accs ts (added r p st dr e i) = added r p st dr e i

  Steps-at :
      (s : AcceptorLoop E) (ps : List Post) (accs : List (Accept E)) (ts : List Timer)
      {u : AcceptorLoop E}
      → Steps (record s { posts = ps; accepts = accs; timers = ts }) u
      → Steps s u
  Steps-at s ps accs ts h = record {
    filter = h.filter;
    port = h.port;
    change = Change-at s ps accs ts h.change;
    stopped = h.stopped;
  }

  on_outcome-Steps :
      (o : Outcome E) (s : AcceptorLoop E) → s.stopped ≡ false → Steps s (on_outcome o s)
  unfolding on_outcome
  on_outcome-Steps failed s off = same s
  on_outcome-Steps (connected none) s off = Agrees-Steps (ground arith)
  on_outcome-Steps (connected (some remote)) s off = elim (Bool-cases (passes s.filter remote)) [
    | inl ok ↦ elim (Bool-cases s.draining) [
      | inl dr ↦ simp (ok, dr, on_outcome) (Agrees-Steps (ground arith))
      | inr nodr ↦
          simp (ok, nodr, on_outcome)
            (record {
              filter = refl;
              port = refl;
              change = added remote ok off nodr refl refl;
              stopped = λ h. h;
            })
    ]
    | inr bad ↦ simp (bad, on_outcome) (Agrees-Steps (ground arith))
  ]

  on_accept-Steps :
      (place : ℕ) (a : Accept E) (o : Outcome E) (s : AcceptorLoop E)
      → Steps s (on_accept place a o s)
  unfolding on_accept
  on_accept-Steps place a o s = by_stopped s.stopped refl
    where
      t : AcceptorLoop E
      t = record s {
        accepts = without place s.accepts;
        timers = at_timer stop_timer a.timer s.timers;
      }

      by_stopped :
          (b : Bool) → s.stopped ≡ b → Steps s (if b then t else do_accept (on_outcome o t))
      by_stopped true on = Agrees-Steps (ground arith)
      by_stopped false off =
          Steps-at s s.posts t.accepts t.timers
            (Steps-after (on_outcome-Steps o t off) (do_accept-Agrees (on_outcome o t)))

  on_post-Agrees : (now : ℕ) (p : Post) (s : AcceptorLoop E) → Steps s (on_post now p s)
  unfolding on_post
  on_post-Agrees now accepts_next s = Agrees-Steps (do_accept-Agrees s)
  on_post-Agrees now shuts s = record {
    filter = refl;
    port = refl;
    change = kept refl refl;
    stopped = λ h. refl;
  }
  on_post-Agrees now (drains enable) s = record {
    filter = refl;
    port = refl;
    change = kept refl refl;
    stopped = λ h. h;
  }
  on_post-Agrees now (subscribes cb) s = Agrees-Steps (ground arith)

  pub step-Steps : (s : AcceptorLoop E) (a : Action E) → Steps s (step s a)
  unfolding step
  step-Steps s starts = Agrees-Steps (ground arith)
  step-Steps s stops = Agrees-Steps (ground arith)
  step-Steps s (enables_draining enable) = Agrees-Steps (ground arith)
  step-Steps s (sets_drain_callback cb) = Agrees-Steps (ground arith)
  step-Steps s (runs place now) = elim (Option-cases (get_elem? s.posts place)) [
    | inl out ↦ simp (out, step) (same s)
    | inr (p, e) ↦
        simp (e, step)
          (Steps-at s (without place s.posts) s.accepts s.timers
            (on_post-Agrees now p (record s { posts = without place s.posts })))
  ]
  step-Steps s (completes place o) = Agrees-Steps (ground arith)
  step-Steps s (expires i) = Agrees-Steps (ground arith)
  step-Steps s (accepts_at place) = elim (Option-cases (get_elem? s.accepts place)) [
    | inl out ↦ simp (out, step) (same s)
    | inr (a, e) ↦ elim (Option-cases a.outcome) [
      | inl waits ↦ simp (e, waits, step) (same s)
      | inr (o, e') ↦ simp (e, e', step) (on_accept-Steps place a o s)
    ]
  ]
  step-Steps s (times_out i) = Agrees-Steps (ground arith)
  step-Steps s takes_id = record {
    filter = refl;
    port = refl;
    change = taken refl refl;
    stopped = λ h. h;
  }

  Change-sessions :
      (s t : AcceptorLoop E) → s.stopped || s.draining ≡ true → Change s t → t.sessions ≡ s.sessions
  Change-sessions s t h (kept e i) = e
  Change-sessions s t h (taken e i) = e
  Change-sessions s t h (added r p st dr e i) = ground arith

  -- While the loop is stopped or draining, no step starts a session.
  step-sessions :
      (s : AcceptorLoop E) (a : Action E)
      → s.stopped || s.draining ≡ true
      → (step s a).sessions ≡ s.sessions
  step-sessions s a h = Change-sessions s (step s a) h ((step-Steps s a).change)

  -- Once the loop is stopped, no run starts another session, whatever accepts are still outstanding.
  run-sessions :
      (actions : List (Action E)) (s : AcceptorLoop E)
      → s.stopped ≡ true
      → (run s actions).sessions ≡ s.sessions
  unfolding run
  run-sessions [] s on = refl
  run-sessions (a ∷ actions) s on =
      run-sessions actions (step s a) ((step-Steps s a).stopped on)
      ∙ step-sessions s a (ground arith)
