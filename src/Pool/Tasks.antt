-- ===== src/Pool/Tasks.antt =====
-- pool/task_multi_processor.h: where each submitted task is, in any interleaving.
use vectro.Common.{
  ℕ, ◌+◌, ◌≡◌, inl, inr, refl, none, some, List, [], ◌∷◌, ◌++◌, if◌then◌else◌, get_elem?, total,
  total-append, total-set_at, arith, Option-cases,
}
use vectro.Pool.{
  TaskProcessorConfig, TaskItem, Processor, Pc, outside, loaded, placing, pushing, pushed, looping,
  waiting, woken, missed, stealing, took, uncounted, calling, reporting, leaving, crashed, ended,
  refuses, choose, push, take_own, steal, unsnoc,
}
use vectro.Pool.System.{
  Choice, time, submits, goes, System, Action, moves, stops, reconfigures, takes_dropped, registers,
  sets_affinity, move, step, run, start,
}
use vectro.Pool.Counts.{handle_drops-keeps, total-start, total-replicate_nil}

module _ {T : Type 0} where
  -- The task that a thread has in hand.
  abbrev pub in_hand : Pc T → List (TaskItem T)
  in_hand (loaded ti curr) = ti ∷ []
  in_hand (placing ti) = ti ∷ []
  in_hand (pushing ti idx) = ti ∷ []
  in_hand (took id ti) = ti ∷ []
  in_hand (uncounted id ti) = ti ∷ []
  in_hand (calling id ti) = ti ∷ []
  in_hand (crashed (some ti)) = ti ∷ []
  in_hand _ = []

  -- The task that a step brings in, and the one that it refuses.
  abbrev offered : Choice T → List (TaskItem T)
  offered (submits ti) = ti ∷ []
  offered (goes now) = []

  abbrev pub submitted : Choice T → Pc T → List (TaskItem T)
  submitted c outside = offered c
  submitted c _ = []

  abbrev pub refused : Processor T → Pc T → List (TaskItem T)
  refused p (loaded ti curr) = if refuses p.cfg curr then ti ∷ [] else []
  refused p _ = []

  -- The same for an action, and for a run.
  abbrev step_submitted : System T → Action T → List (TaskItem T)
  step_submitted s (moves place c) = elim (get_elem? s.threads place) [
    | none ↦ []
    | some pc ↦ submitted c pc
  ]
  step_submitted s _ = []

  abbrev pub step_refused : System T → Action T → List (TaskItem T)
  step_refused s (moves place c) = elim (get_elem? s.threads place) [
    | none ↦ []
    | some pc ↦ refused s.pool pc
  ]
  step_refused s _ = []

  abbrev pub run_submitted : System T → List (Action T) → List (TaskItem T)
  run_submitted s [] = []
  run_submitted s (a ∷ actions) = step_submitted s a ++ run_submitted (step s a) actions

  abbrev pub run_refused : System T → List (Action T) → List (TaskItem T)
  run_refused s [] = []
  run_refused s (a ∷ actions) = step_refused s a ++ run_refused (step s a) actions

  module _ (w : TaskItem T → ℕ) where
    abbrev pub held : Pc T → ℕ
    held pc = total w (in_hand pc)

    -- Over the queues and the tasks that the callbacks have seen.
    abbrev stored : Processor T → ℕ
    stored p = total (λ (q : List (TaskItem T)). total w q) p.queues + total w p.delivered

    abbrev KeepsTasks : Choice T → Processor T → Pc T → Processor T × Pc T → Type 0
    KeepsTasks c p pc r =
        stored r.0 + held r.1 + total w (refused p pc)
        ≡ stored p + held pc + total w (submitted c pc)

    total-unsnoc :
        (x : TaskItem T) (xs : List (TaskItem T))
        → total w (unsnoc x xs).0 + w (unsnoc x xs).1 ≡ w x + total w xs
    total-unsnoc x [] = omega arith
    total-unsnoc x (y ∷ ys) = omega (arith, total-unsnoc y ys)

    choose-KeepsTasks :
        (c : Choice T) (ti : TaskItem T) (p : Processor T)
        → KeepsTasks c p (placing ti) (choose ti p)
    unfolding choose
    choose-KeepsTasks (submits x) ti p = ground arith
    choose-KeepsTasks (goes now) ti p = ground arith

    push-KeepsTasks :
        (c : Choice T) (ti : TaskItem T) (idx : ℕ) (p : Processor T)
        → KeepsTasks c p (pushing ti idx) (push ti idx p)
    unfolding push
    push-KeepsTasks c ti idx p = elim (Option-cases (get_elem? p.queues idx)) [
      | inl out ↦ rw (out, push) refl
      | inr (q, e) ↦
          rw (e, push)
            (omega (
              arith,
              total-append w q (ti ∷ []),
              total-set_at (λ (q : List (TaskItem T)). total w q) p.queues idx q (q ++ ti ∷ []) e,
            ))
    ]

    take_own-KeepsTasks :
        (c : Choice T) (id : ℕ) (p : Processor T) → KeepsTasks c p (woken id) (take_own id p)
    unfolding take_own
    take_own-KeepsTasks c id p = elim (Option-cases (get_elem? p.queues id)) [
      | inl out ↦ rw (out, take_own) refl
      | inr ([], e) ↦ rw (e, take_own) (ground arith)
      | inr (ti ∷ q, e) ↦
          rw (e, take_own)
            (omega
              (arith, total-set_at (λ (q : List (TaskItem T)). total w q) p.queues id (ti ∷ q) q e))
    ]

    steal-KeepsTasks :
        (c : Choice T) (id vic : ℕ) (p : Processor T)
        → KeepsTasks c p (stealing id vic) (steal id vic p)
    unfolding steal
    steal-KeepsTasks c id vic p = elim (Option-cases (get_elem? p.queues vic)) [
      | inl out ↦ rw (out, steal) refl
      | inr ([], e) ↦ rw (e, steal) refl
      | inr (x ∷ xs, e) ↦
          rw (e, steal)
            (omega (
              arith,
              total-unsnoc x xs,
              total-set_at (λ (q : List (TaskItem T)). total w q) p.queues vic (x ∷ xs)
                  (unsnoc x xs).0 e,
            ))
    ]

    move-KeepsTasks : (c : Choice T) (p : Processor T) (pc : Pc T) → KeepsTasks c p pc (move c p pc)
    unfolding move
    move-KeepsTasks (submits ti) p outside = omega arith
    move-KeepsTasks (goes now) p outside = refl
    move-KeepsTasks c p (loaded ti curr) = ground arith
    move-KeepsTasks c p (placing ti) = choose-KeepsTasks c ti p
    move-KeepsTasks c p (pushing ti idx) = push-KeepsTasks c ti idx p
    move-KeepsTasks c p pushed = refl
    move-KeepsTasks c p (looping id) = ground arith
    move-KeepsTasks c p (waiting id) = ground arith
    move-KeepsTasks c p (woken id) = take_own-KeepsTasks c id p
    move-KeepsTasks c p (missed id) = ground arith
    move-KeepsTasks c p (stealing id vic) = steal-KeepsTasks c id vic p
    move-KeepsTasks c p (took id ti) = refl
    move-KeepsTasks c p (uncounted id ti) = refl
    move-KeepsTasks c p (calling id ti) = omega (arith, total-append w p.delivered (ti ∷ []))
    move-KeepsTasks c p (reporting id) = ground (arith, handle_drops-keeps (time c) p)
    move-KeepsTasks c p leaving = refl
    move-KeepsTasks c p (crashed none) = refl
    move-KeepsTasks c p (crashed (some ti)) = refl
    move-KeepsTasks c p ended = refl

    -- Everything that the pool and its threads have.
    abbrev pub content : System T → ℕ
    content s = stored s.pool + total held s.threads

    step-content :
        (s : System T) (a : Action T)
        → content (step s a) + total w (step_refused s a) ≡ content s + total w (step_submitted s a)
    unfolding step
    step-content s (moves place c) = elim (Option-cases (get_elem? s.threads place)) [
      | inl gone ↦ rw (gone, step, step_refused, step_submitted) (omega arith)
      | inr (pc, e) ↦
          rw (e, step, step_refused, step_submitted)
            (omega (
              arith,
              move-KeepsTasks c s.pool pc,
              total-set_at held s.threads place pc (move c s.pool pc).1 e,
            ))
    ]
    step-content s stops = omega arith
    step-content s takes_dropped = omega arith
    step-content s (registers cb) = omega arith
    step-content s (sets_affinity fn) = omega arith
    step-content s (reconfigures cfg) = omega arith

    run-content_from :
        (s : System T) (actions : List (Action T))
        → content (run s actions) + total w (run_refused s actions)
          ≡ content s + total w (run_submitted s actions)
    unfolding run
    run-content_from s [] = omega arith
    run-content_from s (a ∷ actions) = omega (
      arith,
      run-content_from (step s a) actions,
      step-content s a,
      total-append w (step_refused s a) (run_refused (step s a) actions),
      total-append w (step_submitted s a) (run_submitted (step s a) actions),
    )

-- In any interleaving and for any weight of tasks: the weight of the tasks in the queues, in a
-- thread's hands and delivered to the callbacks, with that of the refused ones, is the weight of the
-- tasks submitted. With the weight that counts one task: it is in one of these places exactly as often
-- as it was submitted.
pub run-content :
    {T : Type 0} (w : TaskItem T → ℕ) (cfg : TaskProcessorConfig) (now n : ℕ)
    (actions : List (Action T))
    → content w (run (start cfg now n) actions) + total w (run_refused (start cfg now n) actions)
      ≡ total w (run_submitted (start cfg now n) actions)
run-content {T} w cfg now n actions = omega (
  arith,
  run-content_from w (start cfg now n) actions,
  total-start {T = T} (held w) cfg now n refl (λ id. refl),
  total-replicate_nil {T = T} (λ q. total w q) cfg.num_threads refl,
)
