-- ===== src/Session/Disconnect.antt =====
-- session.h: the ways a session ends, and what each leaves behind.
use vectro.Common.{
  ℕ, ◌+◌, ◌≤◌, ◌≡◌, ◌∙◌, refl, true, false, Option, none, some, List, [], ◌∷◌, ◌++◌, map, total,
  total-append, arith, Bool-cases, inl, inr,
}
use vectro.Session.{
  Event, messages, disconnects, writes, Session, create, close, shutdown, async_send, Action,
  starts, sets_bundle, enables, sends, closes, reads, read_expires, idle_expires, read_times_out,
  idle_times_out, written, queue_writes, step, run,
}

module _ {B M : Type 0} where
  -- How often the disconnect handler has been called.
  abbrev is_disconnect : Event B M → ℕ
  is_disconnect disconnects = 1
  is_disconnect _ = 0

  abbrev pub disconnections : Session B M → ℕ
  disconnections s = total is_disconnect s.trace

  -- What no handler changes once `shutdown_in_progress_` is set.
  pub record IsFrozen (s t : Session B M) : Type 0 where
    pub shut : t.shutdown_in_progress ≡ true
    pub socket : t.socket_open ≡ s.socket_open
    pub framer : t.framer ≡ s.framer
    silent : disconnections t ≡ disconnections s

  disconnections_writes :
      (trace : List (Event B M)) (buffers : B)
      → total is_disconnect (trace ++ writes buffers ∷ []) ≡ total is_disconnect trace
  disconnections_writes trace buffers =
      omega (arith, total-append is_disconnect trace (writes buffers ∷ []))

  step-IsFrozen :
      (s : Session B M) (a : Action B M) → s.shutdown_in_progress ≡ true → IsFrozen s (step s a)
  unfolding step
  step-IsFrozen s (starts peer m d) h = ground (arith, h)
  step-IsFrozen s (sets_bundle interceptor) h = ground (arith, h)
  step-IsFrozen s (enables enable) h = ground (arith, h)
  step-IsFrozen s (sends passes framed) h = grind (arith, disconnections_writes)
  step-IsFrozen s (closes force) h = ground (arith, h)
  step-IsFrozen s (reads failed msgs) h = ground (arith, h)
  step-IsFrozen s read_expires h = ground (arith, h)
  step-IsFrozen s idle_expires h = ground (arith, h)
  step-IsFrozen s read_times_out h = ground (arith, h)
  step-IsFrozen s idle_times_out h = ground (arith, h)
  step-IsFrozen s (written failed) h = grind (arith, disconnections_writes)
  step-IsFrozen s (queue_writes place failed) h = ground (arith, h)

  pub run-IsFrozen :
      (s : Session B M) (actions : List (Action B M))
      → s.shutdown_in_progress ≡ true
      → IsFrozen s (run s actions)
  unfolding run
  run-IsFrozen s [] h = record { shut = h; socket = refl; framer = refl; silent = refl }
  run-IsFrozen s (a ∷ actions) h =
      let now = step-IsFrozen s a h in
      let later = run-IsFrozen (step s a) actions now.shut in
      record {
        shut = later.shut;
        socket = later.socket ∙ now.socket;
        framer = later.framer ∙ now.framer;
        silent = later.silent ∙ now.silent;
      }

  disconnections_append :
      (trace evs : List (Event B M))
      → total is_disconnect (trace ++ evs) ≡ total is_disconnect trace + total is_disconnect evs
  disconnections_append = total-append is_disconnect

  disconnections_messages :
      (trace : List (Event B M)) (ms : List M)
      → total is_disconnect (trace ++ map messages ms) ≡ total is_disconnect trace
  disconnections_messages trace ms =
      omega (arith, total-append is_disconnect trace (map messages ms), none_of ms)
    where
      none_of : (ms : List M) → total is_disconnect (map messages ms) ≡ 0
      none_of [] = refl
      none_of (m ∷ ms) = omega (arith, none_of ms)

  -- The effect of `Shutdown` where it has not run.
  shutdown-IsFrozen :
      (s : Session B M)
      → s.shutdown_in_progress ≡ false
      → ((shutdown s).shutdown_in_progress ≡ true)
        × ((shutdown s).socket_open ≡ s.socket_open)
        × ((shutdown s).framer ≡ false)
        × (disconnections (shutdown s) ≤ disconnections s + 1)
  unfolding shutdown
  shutdown-IsFrozen s h =
      ground (
        arith,
        h,
        disconnections_append s.trace (disconnects ∷ []),
        disconnections_append s.trace [],
      )

  force_close-silent :
      (s : Session B M)
      → s.shutdown_in_progress ≡ false
      → ((close true s).shutdown_in_progress ≡ true)
        × ((close true s).socket_open ≡ false)
        × (disconnections (close true s) ≡ disconnections s)
  unfolding close
  force_close-silent s h = ground (arith, h)

  record Once (s : Session B M) : Type 0 where
    most : disconnections s ≤ 1
    before : s.shutdown_in_progress ≡ false → disconnections s ≡ 0

  alive-Once :
      (s : Session B M) (a : Action B M)
      → s.shutdown_in_progress ≡ false
      → disconnections s ≡ 0
      → Once (step s a)
  unfolding step
  alive-Once s (starts peer m d) h z = ground (arith, h, z)
  alive-Once s (sets_bundle interceptor) h z = ground (arith, h, z)
  alive-Once s (enables enable) h z = ground (arith, h, z)
  alive-Once s (sends passes framed) h z = grind (arith, disconnections_writes)
  alive-Once s (closes force) h z = ground (arith, h, z)
  alive-Once s (reads failed none) h z = ground (
    arith,
    h,
    z,
    disconnections_append s.trace (disconnects ∷ []),
    disconnections_append s.trace [],
  )
  alive-Once s (reads failed (some ms)) h z = ground (
    arith,
    disconnections_messages s.trace ms,
    h,
    z,
    disconnections_append s.trace (disconnects ∷ []),
    disconnections_append s.trace [],
  )
  alive-Once s read_expires h z = ground (
    arith,
    h,
    z,
    disconnections_append s.trace (disconnects ∷ []),
    disconnections_append s.trace [],
  )
  alive-Once s idle_expires h z = ground (
    arith,
    h,
    z,
    disconnections_append s.trace (disconnects ∷ []),
    disconnections_append s.trace [],
  )
  alive-Once s read_times_out h z = ground (
    arith,
    h,
    z,
    disconnections_append s.trace (disconnects ∷ []),
    disconnections_append s.trace [],
  )
  alive-Once s idle_times_out h z = ground (
    arith,
    h,
    z,
    disconnections_append s.trace (disconnects ∷ []),
    disconnections_append s.trace [],
  )
  alive-Once s (written failed) h z = grind (
    arith,
    disconnections_writes,
    disconnections_append s.trace (disconnects ∷ []),
    disconnections_append s.trace [],
  )
  alive-Once s (queue_writes place failed) h z = ground (arith, h, z)

  step-Once : (s : Session B M) (a : Action B M) → Once s → Once (step s a)
  step-Once s a o = elim (Bool-cases s.shutdown_in_progress) [
    | inl over ↦
        let frozen = step-IsFrozen s a over in
        record { most = omega (arith, frozen.silent, o.most); before = λ h. cc (frozen.shut) }
    | inr alive ↦ alive-Once s a alive (o.before alive)
  ]

  run-Once : (s : Session B M) (actions : List (Action B M)) → Once s → Once (run s actions)
  unfolding run
  run-Once s [] o = o
  run-Once s (a ∷ actions) o = run-Once (step s a) actions (step-Once s a o)

  -- Whatever the handlers do, and in any order, the disconnect handler is called at most once.
  pub run-disconnections : (actions : List (Action B M)) → disconnections (run create actions) ≤ 1
  run-disconnections actions =
      (run-Once create actions (record { most = omega arith; before = λ h. refl })).most

  -- Where no shutdown has begun, `Shutdown` leaves the socket as it is, and so does every handler that
  -- runs afterwards: an open socket stays open.
  pub shutdown-run :
      (s : Session B M) (actions : List (Action B M))
      → s.shutdown_in_progress ≡ false
      → ((run (shutdown s) actions).socket_open ≡ s.socket_open)
        × ((run (shutdown s) actions).shutdown_in_progress ≡ true)
  shutdown-run s actions h =
      let (shut, socket, _, _) = shutdown-IsFrozen s h in
      let later = run-IsFrozen (shutdown s) actions shut in (later.socket ∙ socket, later.shut)

  -- Where `Shutdown` has run, with no shutdown begun before it and whatever handlers since, an
  -- `AsyncSend` that passes the interceptor uses the null framer.
  async_send-shutdown :
      (s : Session B M) (actions : List (Action B M)) (framed : Option B)
      → s.shutdown_in_progress ≡ false
      → (async_send true framed (run (shutdown s) actions)).fault ≡ true
  unfolding async_send
  async_send-shutdown s actions framed h =
      let (shut, _, gone, _) = shutdown-IsFrozen s h in
      ground (arith, (run-IsFrozen (shutdown s) actions shut).framer, gone)

  -- Where no shutdown has begun, `Close(true)` closes the socket for good, and the disconnect handler
  -- is not called any more.
  force_close-run :
      (s : Session B M) (actions : List (Action B M))
      → s.shutdown_in_progress ≡ false
      → ((run (close true s) actions).socket_open ≡ false)
        × (disconnections (run (close true s) actions) ≡ disconnections s)
  force_close-run s actions h =
      let (shut, socket, silent) = force_close-silent s h in
      let later = run-IsFrozen (close true s) actions shut in
      (later.socket ∙ socket, later.silent ∙ silent)
