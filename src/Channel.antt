-- ===== src/Channel.antt =====
-- channel.h: a channel, which is a queue of messages over one pool of workers. A hook is a
-- `std::function`, of which only matters whether it is set; `calls` records the calls of the hooks,
-- `submitted` what the pool's `Submit` has been given, and `proc_ends` how often the destructor of
-- the pool `proc_` has run. The pool itself is the module Pool's.
pub mod Life
pub mod Manager
pub mod Tests
use vectro.Common.{ℕ, suc, ◌+◌, Bool, true, false, List, [], ◌∷◌, ◌++◌, if◌then◌else◌}
use vectro.Pool.{TaskProcessorConfig}

pub record Hooks : Type 0 where
  pub on_start : Bool
  pub on_stop : Bool
  pub on_shutdown : Bool
  pub on_enqueue : Bool
  pub on_processed : Bool
  pub on_error : Bool

pub data Call (M : Type 0) : Type 0 where
  started stopped : Call M
  shut_down : (force : Bool) → Call M
  enqueued processed errored : M → Call M

pub record Channel (M : Type 0) : Type 0 where
  pub hooks : Hooks
  pub submitted : List M
  pub calls : List (Call M)
  pub proc_ends : ℕ
  -- what the pool's `UpdateConfig` has been given
  pub updates : List TaskProcessorConfig

pub data Action (M : Type 0) : Type 0 where
  sets_hooks : Hooks → Action M
  enqueues : M → Action M
  shuts_down : (force : Bool) → Action M
  -- a worker calls the registered callback; `throws` says what `OnProcessed` does
  processes : M → (throws : Bool) → Action M
  updates_config : TaskProcessorConfig → Action M

abbrev no_hooks : Hooks
no_hooks = record {
  on_start = false;
  on_stop = false;
  on_shutdown = false;
  on_enqueue = false;
  on_processed = false;
  on_error = false;
}

module _ {M : Type 0} where
  abbrev pub notify : Bool → Call M → Channel M → Channel M
  notify is_set c s = if is_set then record s { calls = s.calls ++ c ∷ [] } else s

  -- The constructor, with the members as they are before its body.
  abbrev pub create : Channel M
  create =
      let s : Channel M = record {
        hooks = no_hooks;
        submitted = [];
        calls = [];
        proc_ends = 0;
        updates = [];
      } in
      notify s.hooks.on_start started s

  abbrev pub submit : M → Channel M → Channel M
  submit msg s = record s { submitted = s.submitted ++ msg ∷ [] }

  pub enqueue : M → Channel M → Channel M
  enqueue msg s = submit msg (notify s.hooks.on_enqueue (enqueued msg) s)

  abbrev pub end_proc : Channel M → Channel M
  end_proc s = record s { proc_ends = suc s.proc_ends }

  -- `ShutdownForce` and `ShutdownGraceful`
  pub shut : Bool → Channel M → Channel M
  shut force s =
      let t = end_proc (notify s.hooks.on_shutdown (shut_down force) s) in
      notify t.hooks.on_stop stopped t

  -- `UpdateConfig`
  abbrev update_config : TaskProcessorConfig → Channel M → Channel M
  update_config cfg s = record s { updates = s.updates ++ cfg ∷ [] }

  -- The callback registered by the constructor.
  pub process : M → Bool → Channel M → Channel M
  process msg throws s =
      if s.hooks.on_processed
      then (let t = notify true (processed msg) s in
          if throws then notify t.hooks.on_error (errored msg) t else t)
      else s

  -- The destructor, with that of the member `proc_`.
  pub destroy : Channel M → Channel M
  unfolding shut
  destroy s = end_proc (shut true s)

  pub step : Channel M → Action M → Channel M
  unfolding enqueue shut process
  step s (sets_hooks hooks) = record s { hooks = hooks }
  step s (enqueues msg) = enqueue msg s
  step s (shuts_down force) = shut force s
  step s (processes msg throws) = process msg throws s
  step s (updates_config cfg) = update_config cfg s

  pub run : Channel M → List (Action M) → Channel M
  unfolding step
  run s [] = s
  run s (a ∷ actions) = run (step s a) actions
