-- ===== src/Pool/Shutdown.antt =====
-- pool/task_multi_processor.h once the destructor has cleared `running_`.
use vectro.Common.{
  ℕ, ◌+◌, ◌≤◌, ◌≡◌, ◌∙◌, inl, inr, refl, false, List, [], ◌∷◌, ◌++◌, length, length-append,
  get_elem?, total, total-set_at, arith, Option-cases,
}
use vectro.Pool.{
  TaskItem, Processor, Pc, outside, loaded, placing, pushing, pushed, looping, waiting, woken,
  missed, stealing, took, uncounted, calling, reporting, leaving, crashed, ended, choose, push,
  take_own, steal, handle_drops, unsnoc,
}
use vectro.Pool.System.{
  Choice, time, submits, goes, System, Action, moves, stops, reconfigures, takes_dropped, registers,
  sets_affinity, move, step, run,
}
use vectro.Pool.Counts.{handle_drops-keeps, queued, length-unsnoc}

module _ {T : Type 0} where
  -- A worker that is past the loop's test may still take one task.
  abbrev pub may_take : Pc T → ℕ
  may_take (waiting id) = 1
  may_take (woken id) = 1
  may_take (missed id) = 1
  may_take (stealing id vic) = 1
  may_take _ = 0

  record Leaves (p : Processor T) (pc : Pc T) (r : Processor T × Pc T) : Type 0 where
    stopped : r.0.running ≡ p.running
    left : queued p + may_take r.1 ≤ queued r.0 + may_take pc

  choose-Leaves : (ti : TaskItem T) (p : Processor T) → Leaves p (placing ti) (choose ti p)
  unfolding choose
  choose-Leaves ti p = ground arith

  push-Leaves :
      (ti : TaskItem T) (idx : ℕ) (p : Processor T) → Leaves p (pushing ti idx) (push ti idx p)
  unfolding push
  push-Leaves ti idx p = elim (Option-cases (get_elem? p.queues idx)) [
    | inl out ↦ rw (out, push) (ground arith)
    | inr (q, e) ↦
        rw (e, push)
          (record {
            stopped = refl;
            left = omega (
              arith,
              length-append q (ti ∷ []),
              total-set_at (λ (q : List (TaskItem T)). length q) p.queues idx q (q ++ ti ∷ []) e,
            );
          })
  ]

  take_own-Leaves : (id : ℕ) (p : Processor T) → Leaves p (woken id) (take_own id p)
  unfolding take_own
  take_own-Leaves id p = elim (Option-cases (get_elem? p.queues id)) [
    | inl out ↦ rw (out, take_own) (ground arith)
    | inr ([], e) ↦ rw (e, take_own) (ground arith)
    | inr (ti ∷ q, e) ↦
        rw (e, take_own)
          (record {
            stopped = refl;
            left = omega (
              arith,
              total-set_at (λ (q : List (TaskItem T)). length q) p.queues id (ti ∷ q) q e,
            );
          })
  ]

  steal-Leaves : (id vic : ℕ) (p : Processor T) → Leaves p (stealing id vic) (steal id vic p)
  unfolding steal
  steal-Leaves id vic p = elim (Option-cases (get_elem? p.queues vic)) [
    | inl out ↦ rw (out, steal) (ground arith)
    | inr ([], e) ↦ rw (e, steal) (ground arith)
    | inr (x ∷ xs, e) ↦
        rw (e, steal)
          (record {
            stopped = refl;
            left = omega (
              arith,
              length-unsnoc x xs,
              total-set_at (λ (q : List (TaskItem T)). length q) p.queues vic (x ∷ xs)
                  (unsnoc x xs).0 e,
            );
          })
  ]

  handle_drops-running : (now : ℕ) (p : Processor T) → (handle_drops now p).running ≡ p.running
  unfolding handle_drops
  handle_drops-running now p = ground arith

  move-Leaves :
      (c : Choice T) (p : Processor T) (pc : Pc T) → p.running ≡ false → Leaves p pc (move c p pc)
  unfolding move
  move-Leaves (submits ti) p outside h = ground arith
  move-Leaves (goes now) p outside h = ground arith
  move-Leaves c p (loaded ti curr) h = ground arith
  move-Leaves c p (placing ti) h = choose-Leaves ti p
  move-Leaves c p (pushing ti idx) h = push-Leaves ti idx p
  move-Leaves c p pushed h = ground arith
  move-Leaves c p (looping id) h = ground (arith, h)
  move-Leaves c p (waiting id) h = ground (arith, h)
  move-Leaves c p (woken id) h = take_own-Leaves id p
  move-Leaves c p (missed id) h = ground arith
  move-Leaves c p (stealing id vic) h = steal-Leaves id vic p
  move-Leaves c p (took id ti) h = ground arith
  move-Leaves c p (uncounted id ti) h = ground arith
  move-Leaves c p (calling id ti) h = ground arith
  move-Leaves c p (reporting id) h =
      ground (arith, handle_drops-keeps (time c) p, handle_drops-running (time c) p)
  move-Leaves c p leaving h = ground arith
  move-Leaves c p (crashed held) h = ground arith
  move-Leaves c p ended h = ground arith

  -- What a run leaves behind, with the tasks that the workers may still have taken.
  pub record Rests (s t : System T) : Type 0 where
    pub stopped : t.pool.running ≡ false
    pub left : queued s.pool + total may_take t.threads ≤ queued t.pool + total may_take s.threads

  pub step-Rests : (s : System T) (a : Action T) → s.pool.running ≡ false → Rests s (step s a)
  unfolding step
  step-Rests s (moves place c) h = elim (Option-cases (get_elem? s.threads place)) [
    | inl gone ↦ rw (gone, step) (record { stopped = h; left = omega arith })
    | inr (pc, e) ↦
        let less = move-Leaves c s.pool pc h in
        rw (e, step)
          (record {
            stopped = less.stopped ∙ h;
            left =
                omega (
                  arith,
                  less.left,
                  total-set_at may_take s.threads place pc (move c s.pool pc).1 e,
                );
          })
  ]
  step-Rests s stops h = record { stopped = refl; left = omega arith }
  step-Rests s (reconfigures cfg) h = record { stopped = h; left = omega arith }
  step-Rests s takes_dropped h = record { stopped = h; left = omega arith }
  step-Rests s (registers cb) h = record { stopped = h; left = omega arith }
  step-Rests s (sets_affinity fn) h = record { stopped = h; left = omega arith }

  run-Rests :
      (s : System T) (actions : List (Action T)) → s.pool.running ≡ false → Rests s (run s actions)
  unfolding run
  run-Rests s [] h = record { stopped = h; left = omega arith }
  run-Rests s (a ∷ actions) h =
      let now = step-Rests s a h in
      let later = run-Rests (step s a) actions now.stopped in
      record { stopped = later.stopped; left = omega (arith, now.left, later.left) }

  -- Once `running_` is cleared, the queues never end up shorter by more than the number of the workers
  -- that are past the test of their loop.
  pub run_stopped :
      (s : System T) (actions : List (Action T))
      → queued s.pool ≤ queued (run s (stops ∷ actions)).pool + total may_take s.threads
  unfolding run step
  run_stopped s actions =
      omega (
        arith,
        (run-Rests (record s { pool = record s.pool { running = false } }) actions refl).left,
      )
