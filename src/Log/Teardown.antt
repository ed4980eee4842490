-- ===== src/Log/Teardown.antt =====
-- log/log_adapter.h: the destructor, in the thread that owns the logger, among the steps of the
-- writers and of the worker. It clears `running_`, waits for `stopped_` or the timeout, and then joins
-- the worker or detaches it. The sleeps between two tests are not modelled.
pub mod Choice
use vectro.Common.{
  ℕ, zero, suc, ◌+◌, ◌≤◌, ◌≡◌, ◌∙◌, refl, ap, Bool, true, false, not, ◌&&◌, ◌||◌, ◌⊎◌, Option, some,
  List, [], ◌∷◌, ◌++◌, ltb, if◌then◌else◌, length, arith, Option-cases, get_elem?, inl, inr,
}
use vectro.Log.{
  LogAdapter, LogMessage, Writer, idle, sized, entering, Worker, at_loop, ended, enqueue, Action,
  writes, works, registers, clears, limits, notifies_every, takes_dropped, stops, step, run,
}
use vectro.Log.Drain.{ticks, step_ended, run_all}

pub data Phase : Type 0 where
  alive : Phase
  -- `running_` is cleared, since the time `begun`
  waiting : (begun : ℕ) → Phase
  -- the wait is over
  waited : Phase
  joining : Phase
  -- the destructor has returned
  joined : Phase
  detached : Phase

pub record Teardown : Type 0 where
  pub adapter : LogAdapter
  pub shutdown_timeout : ℕ
  pub phase : Phase
  -- the worker has used the logger after the destructor's return
  pub misused : Bool

abbrev pub begin : LogAdapter → Teardown
begin s = record { adapter = s; shutdown_timeout = 5000; phase = alive; misused = false }

abbrev pub is_ended : Worker → Bool
is_ended ended = true
is_ended _ = false

-- A step of the destructor at the time `now`.
pub proceed : ℕ → Teardown → Phase → Teardown
unfolding step
proceed now t alive = record t { adapter = step t.adapter stops; phase = waiting now }
proceed now t (waiting begun) =
    if not t.adapter.stopped && ltb now (begun + t.shutdown_timeout)
    then t
    else record t { phase = waited }
proceed now t waited = record t { phase = if t.adapter.stopped then joining else detached }
proceed now t joining = if is_ended t.adapter.worker then record t { phase = joined } else t
proceed now t joined = t
proceed now t detached = t

-- The logger is gone.
abbrev pub is_gone : Phase → Bool
is_gone joined = true
is_gone detached = true
is_gone _ = false

abbrev is_work : Action → Bool
is_work (works now) = true
is_work _ = false

pub data Event : Type 0 where
  acts : Action → Event
  sets_shutdown_timeout : ℕ → Event
  proceeds : (now : ℕ) → Event

unfoldable pub advance : Teardown → Event → Teardown
unfolding step proceed
advance t (acts a) = record t {
  adapter = step t.adapter a;
  misused = t.misused || (is_work a && (is_gone t.phase && not (is_ended t.adapter.worker)));
}
advance t (sets_shutdown_timeout timeout) = record t { shutdown_timeout = timeout }
advance t (proceeds now) = proceed now t t.phase

unfoldable pub unwind : Teardown → List Event → Teardown
unwind t [] = t
unwind t (e ∷ events) = unwind (advance t e) events

abbrev pub acts_all : List Action → List Event
acts_all [] = []
acts_all (a ∷ actions) = acts a ∷ acts_all actions

unwind-append : (t : Teardown) (xs ys : List Event) → unwind t (xs ++ ys) ≡ unwind (unwind t xs) ys
unfolding unwind
unwind-append t [] ys = refl
unwind-append t (e ∷ xs) ys = unwind-append (advance t e) xs ys

-- The destructor waits since `begun`.
abbrev waiting_with : (timeout begun : ℕ) → LogAdapter → Teardown
waiting_with timeout begun s = record {
  adapter = s;
  shutdown_timeout = timeout;
  phase = waiting begun;
  misused = false;
}

-- Meanwhile the worker's steps are those of the logger.
unwind-ticks :
    (timeout begun now k : ℕ) (s : LogAdapter)
    → unwind (waiting_with timeout begun s) (acts_all (ticks now k))
      ≡ waiting_with timeout begun (run s (ticks now k))
unfolding unwind advance run
unwind-ticks timeout begun now zero s = refl
unwind-ticks timeout begun now (suc k) s = unwind-ticks timeout begun now k (step s (works now))

-- Where the worker has set `stopped_`, three more steps return from the destructor.
three_steps :
    (timeout begun t1 t2 t3 : ℕ) (s : LogAdapter)
    → s.worker ≡ ended
    → s.stopped ≡ true
    → unwind (waiting_with timeout begun s) (proceeds t1 ∷ proceeds t2 ∷ proceeds t3 ∷ [])
      ≡ record (waiting_with timeout begun s) { phase = joined }
unfolding unwind advance proceed
three_steps timeout begun t1 t2 t3 s w e = ground (arith, w, e)

-- With a list of callbacks and the worker at the test of its loop, the destructor clears `running_`,
-- the worker takes at least eight steps more than there are messages in the queue, and three more steps
-- of the destructor, whatever the times and the timeout, join the worker: by then all the messages that
-- were in the queue have been dispatched, in order.
pub unwind-flushes :
    (timeout begun now k t1 t2 t3 : ℕ) (cbs : List (Option ℕ)) (s : LogAdapter)
    → s.worker ≡ at_loop
    → s.callbacks ≡ some cbs
    → length s.queue + 8 ≤ k
    → (let t = unwind (advance (begin s) (sets_shutdown_timeout timeout)) (
          proceeds begun ∷ acts_all (ticks now k)
          ++ proceeds t1 ∷ proceeds t2 ∷ proceeds t3 ∷ []) in
        (t.phase ≡ joined)
        × (t.adapter.queue ≡ [])
        × (t.adapter.dispatched ≡ s.dispatched ++ s.queue))
unfolding unwind advance proceed step
unwind-flushes timeout begun now k t1 t2 t3 cbs s w c le =
    let stopping = record s { running = false } in
    let done =
      run_all now cbs s.queue k s.dispatched stopping le
        (record { worker = w; callbacks = c; running = refl; queue = refl; dispatched = refl }) in
    let ends =
      unwind-append (waiting_with timeout begun stopping) (acts_all (ticks now k))
        (proceeds t1 ∷ proceeds t2 ∷ proceeds t3 ∷ [])
      ∙ ap (λ t. unwind t (proceeds t1 ∷ proceeds t2 ∷ proceeds t3 ∷ []))
          (unwind-ticks timeout begun now k stopping)
      ∙ three_steps timeout begun t1 t2 t3 (run stopping (ticks now k)) done.worker done.stopped in
    (
      ap (λ t. t.phase) ends,
      ap (λ t. t.adapter.queue) ends ∙ done.queue,
      ap (λ t. t.adapter.dispatched) ends ∙ done.dispatched,
    )
