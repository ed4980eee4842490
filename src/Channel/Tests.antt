-- ===== src/Channel/Tests.antt =====
-- channel.h: runs of a channel and of a manager of channels, and their theorems at them.
use vectro.Common.{ℕ, ◌≡◌, refl, true, false, Option, List, [], ◌∷◌, nat_key}
use vectro.HashMap.{HashMap}
use vectro.HashMap.Assoc.{assoc_map}
use vectro.Channel.{
  Hooks, stopped, shut_down, enqueued, processed, errored, Channel, Action, sets_hooks, enqueues,
  shuts_down, processes, create, step, run,
}
use vectro.Channel.Manager.{dispatches, shuts_all, has_dispatch, run-create}
use vectro.Channel.Manager

abbrev all_hooks : Hooks
all_hooks = record {
  on_start = true;
  on_stop = true;
  on_shutdown = true;
  on_enqueue = true;
  on_processed = true;
  on_error = true;
}

abbrev life : List (Action ℕ)
life =
    enqueues 1
    ∷ sets_hooks all_hooks
    ∷ enqueues 2
    ∷ processes 1 true
    ∷ processes 2 false
    ∷ shuts_down false
    ∷ []

life_calls :
    (run create life).calls
    ≡ enqueued 2 ∷ processed 1 ∷ errored 1 ∷ processed 2 ∷ shut_down false ∷ stopped ∷ []
unfolding run step
life_calls = refl

-- Channels are named by numbers.
abbrev named : HashMap ℕ (Option (Channel ℕ))
named = assoc_map ℕ (Option (Channel ℕ))

run-create_example :
    Manager.run named
      (Manager.create named)
      (shuts_all true ∷ dispatches 1 7 ∷ shuts_all false ∷ [])
    ≡ record (Manager.create named) { fault = true }
run-create_example = run-create named (shuts_all true ∷ dispatches 1 7 ∷ shuts_all false ∷ [])
