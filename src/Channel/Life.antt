-- ===== src/Channel/Life.antt =====
-- channel.h: a channel from its constructor to its destructor.
use mathlib.Core.List.{append_assoc, append-nil}
use vectro.Common.{
  total-append, ℕ, ◌+◌, ◌≡◌, refl, sym, ap, ◌∙◌, Bool, true, false, List, [], ◌∷◌, ◌++◌, total,
  arith,
}
use vectro.Channel.{
  updates_config, end_proc, Call, started, stopped, shut_down, enqueued, processed, errored,
  Channel, Action, sets_hooks, enqueues, shuts_down, processes, notify, create, enqueue, shut,
  process, destroy, step, run,
}

module _ {M : Type 0} where
  abbrev is_shutdown : Action M → ℕ
  is_shutdown (shuts_down force) = 1
  is_shutdown _ = 0

  -- The messages given to `Enqueue`, in order.
  abbrev enqueue_calls : List (Action M) → List M
  enqueue_calls [] = []
  enqueue_calls (enqueues msg ∷ actions) = msg ∷ enqueue_calls actions
  enqueue_calls (_ ∷ actions) = enqueue_calls actions

  abbrev is_started : Call M → ℕ
  is_started started = 1
  is_started _ = 0

  step-proc_ends :
      (s : Channel M) (a : Action M) → (step s a).proc_ends ≡ s.proc_ends + is_shutdown a
  unfolding step enqueue shut process
  step-proc_ends s (sets_hooks hooks) = omega arith
  step-proc_ends s (enqueues msg) = ground arith
  step-proc_ends s (shuts_down force) = ground arith
  step-proc_ends s (processes msg throws) = ground arith
  step-proc_ends s (updates_config cfg) = omega arith

  run-proc_ends :
      (actions : List (Action M)) (s : Channel M)
      → (run s actions).proc_ends ≡ s.proc_ends + total is_shutdown actions
  unfolding run
  run-proc_ends [] s = omega arith
  run-proc_ends (a ∷ actions) s =
      omega (arith, step-proc_ends s a, run-proc_ends actions (step s a))

  -- After any life of a channel, its destructor included, the destructor of its pool has run once for
  -- each shutdown and twice more: a second time on every channel.
  destroy-proc_ends :
      (actions : List (Action M))
      → (destroy (run create actions)).proc_ends ≡ total is_shutdown actions + 2
  unfolding destroy shut
  destroy-proc_ends actions = ground (arith, run-proc_ends actions create)

  notify-started :
      (b : Bool) (c : Call M) (s : Channel M)
      → is_started c ≡ 0
      → total is_started (notify b c s).calls ≡ total is_started s.calls
  notify-started true c s e = omega (arith, total-append is_started s.calls (c ∷ []), e)
  notify-started false c s e = refl

  step-started :
      (s : Channel M) (a : Action M) → total is_started (step s a).calls ≡ total is_started s.calls
  unfolding step enqueue shut process
  step-started s (sets_hooks hooks) = refl
  step-started s (enqueues msg) = notify-started s.hooks.on_enqueue (enqueued msg) s refl
  step-started s (updates_config cfg) = refl
  step-started s (shuts_down force) =
      let t = end_proc (notify s.hooks.on_shutdown (shut_down force) s) in
      notify-started t.hooks.on_stop stopped t refl
      ∙ notify-started s.hooks.on_shutdown (shut_down force) s refl
  step-started s (processes msg throws) =
      let t = notify true (processed msg) s in
      ground (
        arith,
        notify-started true (processed msg) s refl,
        notify-started t.hooks.on_error (errored msg) t refl,
      )

  step-submitted :
      (s : Channel M) (a : Action M) → (step s a).submitted ≡ s.submitted ++ enqueue_calls (a ∷ [])
  unfolding step enqueue shut process
  step-submitted s (sets_hooks hooks) = sym (append-nil s.submitted)
  step-submitted s (updates_config cfg) = sym (append-nil s.submitted)
  step-submitted s (enqueues msg) = ground arith
  step-submitted s (shuts_down force) = ground (arith, append-nil s.submitted)
  step-submitted s (processes msg throws) = ground (arith, append-nil s.submitted)

  enqueue_calls_cons :
      (a : Action M) (actions : List (Action M))
      → enqueue_calls (a ∷ []) ++ enqueue_calls actions ≡ enqueue_calls (a ∷ actions)
  enqueue_calls_cons (sets_hooks hooks) actions = refl
  enqueue_calls_cons (updates_config cfg) actions = refl
  enqueue_calls_cons (enqueues msg) actions = refl
  enqueue_calls_cons (shuts_down force) actions = refl
  enqueue_calls_cons (processes msg throws) actions = refl

  run_submitted :
      (actions : List (Action M)) (s : Channel M)
      → (run s actions).submitted ≡ s.submitted ++ enqueue_calls actions
  unfolding run
  run_submitted [] s = sym (append-nil s.submitted)
  run_submitted (a ∷ actions) s =
      run_submitted actions (step s a)
      ∙ ap (λ xs. xs ++ enqueue_calls actions) (step-submitted s a)
      ∙ append_assoc s.submitted (enqueue_calls (a ∷ [])) (enqueue_calls actions)
      ∙ ap (λ xs. s.submitted ++ xs) (enqueue_calls_cons a actions)

  run_started :
      (actions : List (Action M)) (s : Channel M)
      → total is_started (run s actions).calls ≡ total is_started s.calls
  unfolding run
  run_started [] s = refl
  run_started (a ∷ actions) s = run_started actions (step s a) ∙ step-started s a

  -- In any life of a channel: the pool is given the messages of `Enqueue`, in order, and `OnStart` is
  -- never called.
  run-submitted :
      (actions : List (Action M))
      → ((run create actions).submitted ≡ enqueue_calls actions)
        × (total is_started (run create actions).calls ≡ 0)
  run-submitted actions = (run_submitted actions create, run_started actions create)
