-- ===== src/Pool/System.antt =====
-- pool/task_multi_processor.h: the threads over one pool, interleaved in any order.
use vectro.Common.{
  ℕ, zero, suc, true, false, ◌&&◌, none, some, List, [], ◌∷◌, ◌++◌, nat_beq, if◌then◌else◌,
  get_elem?, set, replicate,
}
use vectro.Pool.{
  TaskProcessorConfig, TaskItem, Processor, Pc, outside, loaded, placing, pushing, pushed, looping,
  waiting, woken, missed, stealing, took, uncounted, calling, reporting, leaving, crashed, ended,
  inc, dec, refuses, choose, push, take_own, pick_victim, default_steal_policy, steal, handle_drops,
  call_all,
}

-- What the thread at a step is given: a task to submit, or the time.
pub data Choice (T : Type 0) : Type 0 where
  submits : TaskItem T → Choice T
  goes : (now : ℕ) → Choice T

abbrev pub time : {T : Type 0} → Choice T → ℕ
time (submits ti) = 0
time (goes now) = now

-- The threads over one pool.
pub record System (T : Type 0) : Type 0 where
  pub pool : Processor T
  pub threads : List (Pc T)

pub data Action (T : Type 0) : Type 0 where
  -- the thread at this place takes a step
  moves : (place : ℕ) → Choice T → Action T
  -- the destructor clears `running_`
  stops : Action T
  reconfigures : TaskProcessorConfig → Action T
  -- `GetDroppedCount`
  takes_dropped : Action T
  registers : (cb : ℕ) → Action T
  sets_affinity : (fn : ℕ) → Action T

-- The configuration is not replaced.
abbrev pub IsFixed : {T : Type 0} → Action T → Type 0
IsFixed (reconfigures cfg) = ⊥
IsFixed _ = Unit

module _ {T : Type 0} where
  unfoldable pub move : Choice T → Processor T → Pc T → Processor T × Pc T
  unfolding choose push take_own steal handle_drops
  move (submits ti) p outside = (p, loaded ti p.tasks_in_queue)
  move (goes now) p outside = (p, outside)
  move c p (loaded ti curr) =
      if refuses p.cfg curr
      then (record p { dropped_count = inc p.dropped_count }, outside)
      else (p, placing ti)
  move c p (placing ti) = choose ti p
  move c p (pushing ti idx) = push ti idx p
  move c p pushed = (record p { tasks_in_queue = inc p.tasks_in_queue }, outside)
  move c p (looping id) = (p, if p.running then waiting id else leaving)
  move c p (waiting id) =
      (p, if p.running && nat_beq p.tasks_in_queue 0 then waiting id else woken id)
  move c p (woken id) = take_own id p
  move c p (missed id) = pick_victim id p
  move c p (stealing id vic) = steal id vic p
  move c p (took id ti) = (record p { tasks_in_queue = dec p.tasks_in_queue }, uncounted id ti)
  move c p (uncounted id ti) = (record p { processed_count = inc p.processed_count }, calling id ti)
  move c p (calling id ti) = (
    record p {
      delivered = p.delivered ++ ti ∷ [];
      calls = p.calls ++ call_all p.global_callbacks ti;
    },
    reporting id,
  )
  move c p (reporting id) = (handle_drops (time c) p, looping id)
  move c p leaving = (record p { active_workers = dec p.active_workers; stopped = true }, ended)
  move c p (crashed held) = (p, crashed held)
  move c p ended = (p, ended)

  -- `GetDroppedCount`, with what it returns as the last of `answers`
  abbrev pub get_dropped_count : Processor T → Processor T
  get_dropped_count p = record p { dropped_count = 0; answers = p.answers ++ p.dropped_count ∷ [] }

  abbrev pub register_callback : ℕ → Processor T → Processor T
  register_callback cb p = record p { global_callbacks = p.global_callbacks ++ cb ∷ [] }

  abbrev pub set_thread_affinity : ℕ → Processor T → Processor T
  set_thread_affinity fn p = record p { thread_affinity = some fn }

  unfoldable pub step : System T → Action T → System T
  unfolding move
  step s (moves place c) = elim (get_elem? s.threads place) [
    | none ↦ s
    | some pc ↦ let r = move c s.pool pc in record { pool = r.0; threads = set s.threads place r.1 }
  ]
  step s stops = record s { pool = record s.pool { running = false } }
  step s (reconfigures cfg) = record s { pool = record s.pool { cfg = cfg } }
  step s takes_dropped = record s { pool = get_dropped_count s.pool }
  step s (registers cb) = record s { pool = register_callback cb s.pool }
  step s (sets_affinity fn) = record s { pool = set_thread_affinity fn s.pool }

  unfoldable pub run : System T → List (Action T) → System T
  run s [] = s
  run s (a ∷ actions) = run (step s a) actions

  abbrev pub workers : ℕ → ℕ → List (Pc T)
  workers zero id = []
  workers (suc n) id = looping id ∷ workers n (suc id)

  -- The constructor at the time `now`, with `n` threads outside that may submit tasks.
  abbrev pub start : TaskProcessorConfig → ℕ → ℕ → System T
  start cfg now n = record {
    pool = record {
      cfg = cfg;
      running = true;
      stopped = false;
      active_workers = cfg.num_threads;
      queues = replicate cfg.num_threads [];
      tasks_in_queue = 0;
      dropped_count = 0;
      high_water_mark = 0;
      processed_count = 0;
      stolen_count = 0;
      rr_index = 0;
      last_drop_notification = now;
      steal_policy = elim cfg.steal_policy [ none ↦ default_steal_policy | some policy ↦ policy ];
      reports = [];
      answers = [];
      global_callbacks = [];
      thread_affinity = none;
      delivered = [];
      calls = [];
    };
    threads = workers cfg.num_threads 0 ++ replicate n outside;
  }
