-- ===== src/Pool.antt =====
-- pool/task_multi_processor.h: a pool of workers over one queue each. A thread is where it stands
-- in the code (`Pc`), with the locals that are live there; a step of one thread is one atomic
-- access or one critical section of the source. What a lock protects is one step; condition
-- variables only say when a thread may go on, which any schedule respects. Sleeps are not modelled:
-- they change no state. Callbacks are named by numbers; `delivered` records each task that they have
-- been called with, and `calls` each call, since an exception of theirs is swallowed.
pub mod System
pub mod Steal
pub mod Counts
pub mod Tasks
pub mod Bound
pub mod Indices
pub mod Fifo
pub mod Marks
pub mod Drops
pub mod Shutdown
pub mod Exits
pub mod Takes
pub mod OwnCalls
pub mod Callbacks
pub mod Affinity
pub mod Futures
pub mod Teardown
pub mod Tests
use vectro.Common.{
  ℕ, zero, suc, ◌+◌, ◌-◌, ◌%◌, ◌^◌, ◌≡◌, Bool, true, false, ◌&&◌, ◌||◌, not, Option, none, some,
  List, [], ◌∷◌, ◌++◌, map, ltb, leb, nat_beq, if◌then◌else◌, length, get_elem?, set, max, take,
  replicate,
}

pub data ScheduleMode : Type 0 where
  fifo round_robin work_stealing : ScheduleMode

pub record TaskProcessorConfig : Type 0 where
  pub num_threads : ℕ
  pub mode : ScheduleMode
  pub steal_policy : Option (List ℕ → ℕ)
  pub max_queue_size : ℕ
  pub backpressure_threshold : ℕ
  pub drop_notification_interval : ℕ
  pub shutdown_timeout : ℕ
  pub enable_circuit_breaker : Bool
  pub enable_backoff : Bool
  pub bind_threads : Bool
  pub enable_drain_on_shutdown : Bool

pub record TaskItem (T : Type 0) : Type 0 where
  pub payload : T
  pub wrappers : List ℕ

-- A call of one of `global_callbacks_`, or of a task's own.
pub data Call (T : Type 0) : Type 0 where
  registered : (cb : ℕ) → T → Call T
  wrapped : (wrapper : ℕ) → T → Call T

abbrev pub call_all : {T : Type 0} → List ℕ → TaskItem T → List (Call T)
call_all globals ti =
    map (λ g. registered g ti.payload) globals ++ map (λ w. wrapped w ti.payload) ti.wrappers

-- `std::max_element`: the first of the largest, by its position.
abbrev pub max_element : (best best_size i : ℕ) → List ℕ → ℕ
max_element best best_size i [] = best
max_element best best_size i (n ∷ sizes) =
    max_element (if ltb best_size n then i else best) (if ltb best_size n then n else best_size)
      (suc i) sizes

pub default_steal_policy : List ℕ → ℕ
default_steal_policy [] = 0
default_steal_policy (n ∷ sizes) = max_element 0 n 1 sizes

pub record Processor (T : Type 0) : Type 0 where
  pub cfg : TaskProcessorConfig
  pub running : Bool
  pub stopped : Bool
  pub active_workers : ℕ
  pub queues : List (List (TaskItem T))
  pub tasks_in_queue : ℕ
  pub dropped_count : ℕ
  pub high_water_mark : ℕ
  pub processed_count : ℕ
  pub stolen_count : ℕ
  pub rr_index : ℕ
  pub last_drop_notification : ℕ
  pub steal_policy : List ℕ → ℕ
  -- the counts printed by `HandleDrops` and returned by `GetDroppedCount`
  pub reports : List ℕ
  pub answers : List ℕ
  pub global_callbacks : List ℕ
  pub thread_affinity : Option ℕ
  -- the tasks given to the callbacks, and each call
  pub delivered : List (TaskItem T)
  pub calls : List (Call T)

-- A thread outside the pool that submits tasks, or the worker `id`.
pub data Pc (T : Type 0) : Type 0 where
  outside : Pc T
  -- SubmitImpl: the count has been read
  loaded : TaskItem T → (curr : ℕ) → Pc T
  -- past the circuit breaker and the backoff
  placing : TaskItem T → Pc T
  -- a queue has been chosen
  pushing : TaskItem T → (idx : ℕ) → Pc T
  -- before `tasks_in_queue_.fetch_add`
  pushed : Pc T
  -- ProcessLoop: at the loop's test
  looping : (id : ℕ) → Pc T
  -- in the wait for a task or the shutdown
  waiting : (id : ℕ) → Pc T
  -- past the wait
  woken : (id : ℕ) → Pc T
  -- the worker's own queue was empty
  missed : (id : ℕ) → Pc T
  -- a victim has been chosen
  stealing : (id vic : ℕ) → Pc T
  -- before `tasks_in_queue_.fetch_sub`
  took : (id : ℕ) → TaskItem T → Pc T
  -- before `processed_count_.fetch_add`
  uncounted : (id : ℕ) → TaskItem T → Pc T
  -- before the callbacks
  calling : (id : ℕ) → TaskItem T → Pc T
  -- before HandleDrops
  reporting : (id : ℕ) → Pc T
  -- the loop has ended
  leaving : Pc T
  -- an index out of range has been used, with the task in hand
  crashed : Option (TaskItem T) → Pc T
  ended : Pc T

abbrev pub word : ℕ
word = 2 ^ 64

-- `fetch_add(1)` and `fetch_sub(1)` on a `size_t`
abbrev pub inc : ℕ → ℕ
inc n = (n + 1) % word

abbrev pub dec : ℕ → ℕ
dec n = (n + (word - 1)) % word

-- The circuit breaker's test in `SubmitImpl`.
abbrev pub refuses : TaskProcessorConfig → ℕ → Bool
refuses cfg curr =
    cfg.enable_circuit_breaker
    && (not (nat_beq cfg.max_queue_size 0) && leb cfg.max_queue_size curr)

-- `back` and `pop_back`
abbrev pub unsnoc : {A : Type 0} → A → List A → List A × A
unsnoc x [] = ([], x)
unsnoc x (y ∷ ys) = let r = unsnoc y ys in (x ∷ r.0, r.1)

module _ {T : Type 0} where
  abbrev take_turn : TaskItem T → Processor T → Processor T × Pc T
  take_turn ti p = elim (nat_beq p.cfg.num_threads 0) [
    | true ↦ (p, crashed (some ti))
    | false ↦ (record p { rr_index = inc p.rr_index }, pushing ti (p.rr_index % p.cfg.num_threads))
  ]

  -- The choice of a queue: 0, or the next in turn. `% 0` is a fault.
  pub choose : TaskItem T → Processor T → Processor T × Pc T
  choose ti p = elim p.cfg.mode [
    | fifo ↦ (p, pushing ti 0)
    | round_robin ↦ take_turn ti p
    | work_stealing ↦ take_turn ti p
  ]

  -- The critical section of `SubmitImpl`, with the update of the high-water mark.
  pub push : TaskItem T → ℕ → Processor T → Processor T × Pc T
  push ti idx p = elim (get_elem? p.queues idx) [
    | none ↦ (p, crashed (some ti))
    | some q ↦ (
      record p {
        queues = set p.queues idx (q ++ ti ∷ []);
        high_water_mark = max p.high_water_mark (length (q ++ ti ∷ []));
      },
      pushed,
    )
  ]

  -- The front of the worker's own queue.
  pub take_own : ℕ → Processor T → Processor T × Pc T
  take_own id p = elim (get_elem? p.queues id) [
    | none ↦ (p, crashed none)
    | some q ↦ elim q [
      | [] ↦ (p, elim p.cfg.mode [ work_stealing ↦ missed id | _ ↦ reporting id ])
      | ti ∷ rest ↦ (record p { queues = set p.queues id rest }, took id ti)
    ]
  ]

  -- The sizes of the queues, read together, and the policy's choice. An index past the queues is a
  -- fault.
  abbrev pub pick_victim : ℕ → Processor T → Processor T × Pc T
  pick_victim id p = (
    p,
    if leb p.cfg.num_threads (length p.queues)
        then stealing id (
            p.steal_policy
              (map (λ (q : List (TaskItem T)). length q) (take p.cfg.num_threads p.queues)))
        else crashed none,
  )

  -- The back of the victim's queue.
  pub steal : ℕ → ℕ → Processor T → Processor T × Pc T
  steal id vic p = elim (get_elem? p.queues vic) [
    | none ↦ (p, crashed none)
    | some q ↦ elim q [
      | [] ↦ (p, reporting id)
      | x ∷ xs ↦ (
        record p { queues = set p.queues vic (unsnoc x xs).0; stolen_count = inc p.stolen_count },
        took id (unsnoc x xs).1,
      )
    ]
  ]

  -- `HandleDrops` at the time `now`
  pub handle_drops : ℕ → Processor T → Processor T
  handle_drops now p =
      if nat_beq p.dropped_count 0
      then p
      else if leb (p.last_drop_notification + p.cfg.drop_notification_interval) now
      then record p {
        dropped_count = 0;
        reports = p.reports ++ p.dropped_count ∷ [];
        last_drop_notification = now;
      }
      else record p { dropped_count = 0 }
