-- ===== src/Session/Timers.antt =====
-- session.h: which of the two timers is waiting.
use vectro.Common.{◌≤◌, ◌⊎◌, ◌≡◌, true, false, Option, List, [], ◌∷◌, arith, All}
use vectro.Session.{
  Session, create, on_read, Action, starts, sets_bundle, enables, sends, closes, reads,
  read_expires, idle_expires, read_times_out, idle_times_out, written, queue_writes, step, run,
}

module _ {B M : Type 0} where
  -- The session is not started again.
  abbrev IsLater : Action B M → Type 0
  IsLater (starts peer m d) = ⊥
  IsLater _ = Unit

  -- No idle wait, and none whose handler becomes due.
  record IsSpent (s t : Session B M) : Type 0 where
    waits : t.idle_wait ≡ false
    due : t.idle_due ≤ s.idle_due

  step-IsSpent :
      (s : Session B M) (a : Action B M) → IsLater a → s.idle_wait ≡ false → IsSpent s (step s a)
  unfolding step
  step-IsSpent s (starts peer m d) p h = absurd p
  step-IsSpent s (sets_bundle interceptor) p h = ground (arith, h)
  step-IsSpent s (enables enable) p h = ground (arith, h)
  step-IsSpent s (sends passes framed) p h = ground (arith, h)
  step-IsSpent s (closes force) p h = ground (arith, h)
  step-IsSpent s (reads failed msgs) p h = ground (arith, h)
  step-IsSpent s read_expires p h = ground (arith, h)
  step-IsSpent s idle_expires p h = ground (arith, h)
  step-IsSpent s read_times_out p h = ground (arith, h)
  step-IsSpent s idle_times_out p h = ground (arith, h)
  step-IsSpent s (written failed) p h = ground (arith, h)
  step-IsSpent s (queue_writes place failed) p h = ground (arith, h)

  run-IsSpent :
      (s : Session B M) (actions : List (Action B M))
      → All IsLater actions
      → s.idle_wait ≡ false
      → IsSpent s (run s actions)
  unfolding run
  run-IsSpent s [] p h = record { waits = h; due = omega arith }
  run-IsSpent s (a ∷ actions) p h =
      let now = step-IsSpent s a p.0 h in
      let later = run-IsSpent (step s a) actions p.1 now.waits in
      record { waits = later.waits; due = omega (arith, now.due, later.due) }

  -- After a read that succeeds where no shutdown has begun, if the session is not started again: no
  -- handler of the idle timer waits any more, whatever runs, and none becomes due beyond those of waits
  -- that had expired before the read.
  pub on_read-idle_wait :
      (s : Session B M) (msgs : Option (List M)) (actions : List (Action B M))
      → s.shutdown_in_progress ≡ false
      → All IsLater actions
      → ((run (on_read false msgs s) actions).idle_wait ≡ false)
        × ((run (on_read false msgs s) actions).idle_due ≤ s.idle_due)
  unfolding on_read
  on_read-idle_wait s msgs actions h p =
      let spent = run-IsSpent (on_read false msgs s) actions p (ground (arith, h)) in
      let kept : (on_read false msgs s).idle_due ≡ s.idle_due = ground (arith, h) in
      (spent.waits, omega (arith, spent.due, kept))

  -- While a read is outstanding its timer is waiting or due, until the session is told to close or a
  -- handler has failed.
  abbrev IsTimed : Session B M → Type 0
  IsTimed s =
      1 ≤ s.reading
      → s.shutdown_in_progress ≡ false
      → s.graceful_shutdown ≡ false
      → s.fault ≡ false
      → (s.read_wait ≡ true) ⊎ (1 ≤ s.read_due)

  step-IsTimed : (s : Session B M) (a : Action B M) → IsTimed s → IsTimed (step s a)
  unfolding step
  step-IsTimed s (starts peer m d) t = ground (arith, t)
  step-IsTimed s (sets_bundle interceptor) t = t
  step-IsTimed s (enables enable) t = t
  step-IsTimed s (sends passes framed) t = ground (arith, t)
  step-IsTimed s (closes force) t = ground (arith, t)
  step-IsTimed s (reads failed msgs) t = ground (arith, t)
  step-IsTimed s read_expires t = ground (arith, t)
  step-IsTimed s idle_expires t = ground (arith, t)
  step-IsTimed s read_times_out t = ground (arith, t)
  step-IsTimed s idle_times_out t = ground (arith, t)
  step-IsTimed s (written failed) t = ground (arith, t)
  step-IsTimed s (queue_writes place failed) t = t

  run-IsTimed_from :
      (s : Session B M) (actions : List (Action B M)) → IsTimed s → IsTimed (run s actions)
  unfolding run
  run-IsTimed_from s [] t = t
  run-IsTimed_from s (a ∷ actions) t = run-IsTimed_from (step s a) actions (step-IsTimed s a t)

  -- In any run, while a read is outstanding, neither kind of close has begun and no handler has failed,
  -- the handler of the read timer waits or is due.
  run-IsTimed : (actions : List (Action B M)) → IsTimed (run create actions)
  run-IsTimed actions = run-IsTimed_from create actions (λ r h g f. absurd (omega (arith, r)))
