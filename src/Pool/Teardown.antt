-- ===== src/Pool/Teardown.antt =====
-- pool/task_multi_processor.h: the destructor, in the thread that owns the pool, among the steps of
-- the workers. It clears `running_`, waits for the queues or the timeout, joins the workers, waits for
-- their count and calls the final callback. The sleeps between two tests are not modelled.
pub mod Live
pub mod Torn
pub mod Joined
use vectro.Common.{
  ℕ, zero, suc, ◌+◌, ◌≡◌, Bool, true, false, ◌&&◌, Option, none, some, List, [], ◌∷◌, ◌++◌, ltb,
  if◌then◌else◌,
}
use vectro.Pool.{Pc, ended}
use vectro.Pool.System.{System, Action, stops, step}

pub data Phase : Type 0 where
  alive : Phase
  -- `running_` is cleared, since the time `begun`
  draining : (begun : ℕ) → Phase
  joining : Phase
  -- the workers are joined
  counting : Phase
  finished : Phase

pub record Teardown (T : Type 0) : Type 0 where
  pub system : System T
  pub phase : Phase
  pub final_callback : Option ℕ
  -- the calls of the final callback
  pub finals : List ℕ

abbrev pub call_final : Option ℕ → List ℕ
call_final none = []
call_final (some cb) = cb ∷ []

module _ {T : Type 0} where
  abbrev pub is_ended : Pc T → Bool
  is_ended ended = true
  is_ended _ = false

  -- `join` returns for each of the first `n` threads.
  abbrev pub are_joined : ℕ → List (Pc T) → Bool
  are_joined zero pcs = true
  are_joined (suc n) [] = true
  are_joined (suc n) (pc ∷ pcs) = is_ended pc && are_joined n pcs

  -- A step of the destructor at the time `now`, with `n` worker threads.
  pub proceed : (n now : ℕ) → Teardown T → Phase → Teardown T
  unfolding step
  proceed n now s alive = record s { system = step s.system stops; phase = draining now }
  proceed n now s (draining begun) =
      if s.system.pool.cfg.enable_drain_on_shutdown
        && (ltb 0 s.system.pool.tasks_in_queue
            && ltb now (begun + s.system.pool.cfg.shutdown_timeout))
      then s
      else record s { phase = joining }
  proceed n now s joining =
      if are_joined n s.system.threads then record s { phase = counting } else s
  proceed n now s counting = if ltb 0 s.system.pool.active_workers then s else record s {
    system = record s.system { pool = record s.system.pool { stopped = true } };
    phase = finished;
    finals = s.finals ++ call_final s.final_callback;
  }
  proceed n now s finished = s

pub data Event (T : Type 0) : Type 0 where
  acts : Action T → Event T
  sets_final : ℕ → Event T
  proceeds : (now : ℕ) → Event T

module _ {T : Type 0} (n : ℕ) where
  unfoldable pub advance : Teardown T → Event T → Teardown T
  unfolding step proceed
  advance s (acts a) = record s { system = step s.system a }
  advance s (sets_final cb) = record s { final_callback = some cb }
  advance s (proceeds now) = proceed n now s s.phase

  unfoldable pub unwind : Teardown T → List (Event T) → Teardown T
  unwind s [] = s
  unwind s (e ∷ events) = unwind (advance s e) events

abbrev pub begin : {T : Type 0} → System T → Teardown T
begin system = record { system = system; phase = alive; final_callback = none; finals = [] }
