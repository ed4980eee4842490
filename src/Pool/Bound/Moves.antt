-- ===== src/Pool/Bound/Moves.antt =====
-- pool/task_multi_processor.h: how each step of a thread changes the room that tasks need.

use vectro.Common.{
  ℕ, ◌+◌, ◌≤◌, ◌≡◌, inl, inr, refl, Bool, true, false, List, [], ◌∷◌, ◌++◌, if◌then◌else◌, length,
  length-append, get_elem?, total, total-set_at, arith, Option-cases,
}
use vectro.Pool.{
  TaskProcessorConfig, TaskItem, Processor, Pc, outside, loaded, placing, pushing, pushed, looping,
  waiting, woken, missed, stealing, took, uncounted, calling, reporting, leaving, crashed, ended,
  refuses, choose, push, take_own, steal, handle_drops, unsnoc,
}
use vectro.Pool.System.{Choice, time, submits, goes, move}
use vectro.Pool.Counts.{handle_drops-keeps, uncounted_push, queued, length-unsnoc}

module _ {T : Type 0} where
  -- A thread that submits tasks; one that is going to push a task.
  abbrev pub submitter : Pc T → ℕ
  submitter outside = 1
  submitter (loaded ti curr) = 1
  submitter (placing ti) = 1
  submitter (pushing ti idx) = 1
  submitter pushed = 1
  submitter _ = 0

  abbrev pub ready : TaskProcessorConfig → Pc T → ℕ
  ready cfg (loaded ti curr) = if refuses cfg curr then 0 else 1
  ready cfg (placing ti) = 1
  ready cfg (pushing ti idx) = 1
  ready cfg _ = 0

  pub total-le_add :
      (u r s : Pc T → ℕ)
      → ((pc : Pc T) → u pc + r pc ≤ s pc)
      → (pcs : List (Pc T)) → total u pcs + total r pcs ≤ total s pcs
  total-le_add u r s h [] = omega arith
  total-le_add u r s h (pc ∷ pcs) = omega (arith, h pc, total-le_add u r s h pcs)

  pub ready-submitter :
      (cfg : TaskProcessorConfig) (pc : Pc T) → uncounted_push pc + ready cfg pc ≤ submitter pc
  ready-submitter cfg (loaded ti curr) = ground arith
  ready-submitter cfg pc = omega arith

  -- A step other than a load makes no room for more.
  pub record Shrinks (p : Processor T) (pc : Pc T) (r : Processor T × Pc T) : Type 0 where
    pub cfg_same : r.0.cfg ≡ p.cfg
    pub fewer : queued r.0 + ready p.cfg r.1 ≤ queued p + ready p.cfg pc
    pub submitters : submitter r.1 ≤ submitter pc

  choose-Shrinks : (ti : TaskItem T) (p : Processor T) → Shrinks p (placing ti) (choose ti p)
  unfolding choose
  choose-Shrinks ti p = ground arith

  push-Shrinks :
      (ti : TaskItem T) (idx : ℕ) (p : Processor T) → Shrinks p (pushing ti idx) (push ti idx p)
  unfolding push
  push-Shrinks ti idx p = elim (Option-cases (get_elem? p.queues idx)) [
    | inl out ↦
        rw (out, push) (record { cfg_same = refl; fewer = omega arith; submitters = omega arith })
    | inr (q, e) ↦
        rw (e, push)
          (record {
            cfg_same = refl;
            fewer = omega (
              arith,
              length-append q (ti ∷ []),
              total-set_at (λ (q : List (TaskItem T)). length q) p.queues idx q (q ++ ti ∷ []) e,
            );
            submitters = omega arith;
          })
  ]

  take_own-Shrinks : (id : ℕ) (p : Processor T) → Shrinks p (woken id) (take_own id p)
  unfolding take_own
  take_own-Shrinks id p = elim (Option-cases (get_elem? p.queues id)) [
    | inl out ↦ rw (out, take_own) (ground arith)
    | inr ([], e) ↦ rw (e, take_own) (ground arith)
    | inr (ti ∷ q, e) ↦
        rw (e, take_own)
          (record {
            cfg_same = refl;
            fewer = omega (
              arith,
              total-set_at (λ (q : List (TaskItem T)). length q) p.queues id (ti ∷ q) q e,
            );
            submitters = omega arith;
          })
  ]

  steal-Shrinks : (id vic : ℕ) (p : Processor T) → Shrinks p (stealing id vic) (steal id vic p)
  unfolding steal
  steal-Shrinks id vic p = elim (Option-cases (get_elem? p.queues vic)) [
    | inl out ↦ rw (out, steal) (ground arith)
    | inr ([], e) ↦ rw (e, steal) (ground arith)
    | inr (x ∷ xs, e) ↦
        rw (e, steal)
          (record {
            cfg_same = refl;
            fewer = omega (
              arith,
              length-unsnoc x xs,
              total-set_at (λ (q : List (TaskItem T)). length q) p.queues vic (x ∷ xs)
                  (unsnoc x xs).0 e,
            );
            submitters = omega arith;
          })
  ]

  handle_drops-cfg : (now : ℕ) (p : Processor T) → (handle_drops now p).cfg ≡ p.cfg
  unfolding handle_drops
  handle_drops-cfg now p = ground arith

  abbrev pub loads : Choice T → Pc T → Bool
  loads (submits ti) outside = true
  loads _ _ = false

  pub move-Shrinks :
      (c : Choice T) (p : Processor T) (pc : Pc T) → loads c pc ≡ false → Shrinks p pc (move c p pc)
  unfolding move
  move-Shrinks (submits ti) p outside h = cc
  move-Shrinks (goes now) p outside h = ground arith
  move-Shrinks c p (loaded ti curr) h = ground arith
  move-Shrinks c p (placing ti) h = choose-Shrinks ti p
  move-Shrinks c p (pushing ti idx) h = push-Shrinks ti idx p
  move-Shrinks c p pushed h = ground arith
  move-Shrinks c p (looping id) h = ground arith
  move-Shrinks c p (waiting id) h = ground arith
  move-Shrinks c p (woken id) h = take_own-Shrinks id p
  move-Shrinks c p (missed id) h = ground arith
  move-Shrinks c p (stealing id vic) h = steal-Shrinks id vic p
  move-Shrinks c p (took id ti) h = ground arith
  move-Shrinks c p (uncounted id ti) h = ground arith
  move-Shrinks c p (calling id ti) h = ground arith
  move-Shrinks c p (reporting id) h =
      ground (arith, handle_drops-keeps (time c) p, handle_drops-cfg (time c) p)
  move-Shrinks c p leaving h = ground arith
  move-Shrinks c p (crashed held) h = ground arith
  move-Shrinks c p ended h = ground arith
