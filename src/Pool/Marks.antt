-- ===== src/Pool/Marks.antt =====
-- pool/task_multi_processor.h: the high-water mark.
use vectro.Common.{
  ℕ, zero, suc, ◌≤◌, ◌≡◌, inl, inr, some, List, [], ◌∷◌, ◌++◌, length, get_elem?, set, replicate,
  arith, Option-cases, All,
}
use vectro.Pool.{
  TaskProcessorConfig, TaskItem, Processor, Pc, outside, loaded, placing, pushing, woken, stealing,
  reporting, choose, push, take_own, steal, handle_drops, unsnoc,
}
use vectro.Pool.System.{
  Choice, time, submits, goes, System, Action, moves, stops, reconfigures, takes_dropped, registers,
  sets_affinity, move, step, run, start,
}
use vectro.Pool.Counts.{length-unsnoc}

module _ {T : Type 0} where
  -- Every queue is within the mark.
  abbrev Within : ℕ → List (List (TaskItem T)) → Type 0
  Within m = All (λ q. length q ≤ m)

  Within-mono : {m n : ℕ} (qs : List (List (TaskItem T))) → m ≤ n → Within m qs → Within n qs
  Within-mono [] le h = tt
  Within-mono {m} {n} (q ∷ qs) le h = (omega (arith, h.0), Within-mono qs le h.1)

  Within-set :
      (m : ℕ) (qs : List (List (TaskItem T))) (i : ℕ) (q : List (TaskItem T))
      → length q ≤ m
      → Within m qs
      → Within m (set qs i q)
  Within-set m [] i q small h = tt
  Within-set m (x ∷ qs) zero q small h = (small, h.1)
  Within-set m (x ∷ qs) (suc i) q small h = (h.0, Within-set m qs i q small h.1)

  Within-get :
      (m : ℕ) (qs : List (List (TaskItem T))) (i : ℕ) (q : List (TaskItem T))
      → get_elem? qs i ≡ some q
      → Within m qs
      → length q ≤ m
  Within-get m [] i q e h = cc
  Within-get m (x ∷ qs) zero q e h = ground (arith, e, h.0)
  Within-get m (x ∷ qs) (suc i) q e h = Within-get m qs i q e h.1

  -- A step keeps the mark above every queue, and never lowers it.
  abbrev Marked : Processor T → Processor T → Type 0
  Marked p p' =
      (Within p.high_water_mark p.queues → Within p'.high_water_mark p'.queues)
      × (p.high_water_mark ≤ p'.high_water_mark)

  Marked-of_same :
      (p p' : Processor T)
      → p'.queues ≡ p.queues
      → p'.high_water_mark ≡ p.high_water_mark
      → Marked p p'
  Marked-of_same p p' eq em = (λ h. rw (eq, em) h, omega (arith, em))

  choose-Marked : (ti : TaskItem T) (p : Processor T) → Marked p (choose ti p).0
  unfolding choose
  choose-Marked ti p = Marked-of_same p (choose ti p).0 (ground arith) (ground arith)

  push-Marked : (ti : TaskItem T) (idx : ℕ) (p : Processor T) → Marked p (push ti idx p).0
  unfolding push
  push-Marked ti idx p = elim (Option-cases (get_elem? p.queues idx)) [
    | inl out ↦ rw (out, push) (λ h. h, omega arith)
    | inr (q, e) ↦
        rw (e, push)
          (
            λ h.
                Within-set _ p.queues idx (q ++ ti ∷ []) (omega arith)
                  (Within-mono {m = p.high_water_mark} p.queues (omega arith) h),
            omega arith,
          )
  ]

  take_own-Marked : (id : ℕ) (p : Processor T) → Marked p (take_own id p).0
  unfolding take_own
  take_own-Marked id p = elim (Option-cases (get_elem? p.queues id)) [
    | inl out ↦ rw (out, take_own) (λ h. h, omega arith)
    | inr ([], e) ↦ rw (e, take_own) (λ h. h, omega arith)
    | inr (ti ∷ q, e) ↦
        rw (e, take_own)
          (
            λ h.
                let old = Within-get p.high_water_mark p.queues id (ti ∷ q) e h in
                Within-set _ p.queues id q (omega (arith, old)) h,
            omega arith,
          )
  ]

  steal-Marked : (id vic : ℕ) (p : Processor T) → Marked p (steal id vic p).0
  unfolding steal
  steal-Marked id vic p = elim (Option-cases (get_elem? p.queues vic)) [
    | inl out ↦ rw (out, steal) (λ h. h, omega arith)
    | inr ([], e) ↦ rw (e, steal) (λ h. h, omega arith)
    | inr (x ∷ xs, e) ↦
        rw (e, steal)
          (
            λ h.
                let old = Within-get p.high_water_mark p.queues vic (x ∷ xs) e h in
                Within-set _ p.queues vic (unsnoc x xs).0 (omega (arith, old, length-unsnoc x xs))
                  h,
            omega arith,
          )
  ]

  handle_drops-Marked : (now : ℕ) (p : Processor T) → Marked p (handle_drops now p)
  unfolding handle_drops
  handle_drops-Marked now p = Marked-of_same p (handle_drops now p) (ground arith) (ground arith)

  move-Marked : (c : Choice T) (p : Processor T) (pc : Pc T) → Marked p (move c p pc).0
  unfolding move
  move-Marked (submits ti) p outside = (λ h. h, omega arith)
  move-Marked (goes now) p outside = (λ h. h, omega arith)
  move-Marked c p (loaded ti curr) =
      Marked-of_same p (move c p (loaded ti curr)).0 (ground arith) (ground arith)
  move-Marked c p (placing ti) = choose-Marked ti p
  move-Marked c p (pushing ti idx) = push-Marked ti idx p
  move-Marked c p (woken id) = take_own-Marked id p
  move-Marked c p (stealing id vic) = steal-Marked id vic p
  move-Marked c p (reporting id) = handle_drops-Marked (time c) p
  move-Marked c p pc = (λ h. h, omega arith)

  step-Marked : (s : System T) (a : Action T) → Marked s.pool (step s a).pool
  unfolding step
  step-Marked s (moves place c) = elim (Option-cases (get_elem? s.threads place)) [
    | inl gone ↦ rw (gone, step) (λ h. h, omega arith)
    | inr (pc, e) ↦ rw (e, step) (move-Marked c s.pool pc)
  ]
  step-Marked s stops = (λ h. h, omega arith)
  step-Marked s (reconfigures cfg) = (λ h. h, omega arith)
  step-Marked s takes_dropped = (λ h. h, omega arith)
  step-Marked s (registers cb) = (λ h. h, omega arith)
  step-Marked s (sets_affinity fn) = (λ h. h, omega arith)

  run-Marked : (s : System T) (actions : List (Action T)) → Marked s.pool (run s actions).pool
  unfolding run
  run-Marked s [] = (λ h. h, omega arith)
  run-Marked s (a ∷ actions) =
      let now = step-Marked s a in
      let later = run-Marked (step s a) actions in
      (λ h. later.0 (now.0 h), omega (arith, now.1, later.1))

Within-start : (T : Type 0) (n : ℕ) → Within {T = T} 0 (replicate n [])
Within-start T zero = tt
Within-start T (suc n) = (omega arith, Within-start T n)

-- In any interleaving, the high-water mark at the end is at least the length that any queue had at
-- any moment of the run.
run-Within :
    {T : Type 0} (cfg : TaskProcessorConfig) (now n : ℕ) (before after : List (Action T))
    → Within
        (run (run (start cfg now n) before) after).pool.high_water_mark
        (run (start cfg now n) before).pool.queues
run-Within {T} cfg now n before after = Within-mono _ raised.1 marked
  where
    marked :
        Within
          (run (start cfg now n) before).pool.high_water_mark
          (run (start cfg now n) before).pool.queues
    marked = (run-Marked (start cfg now n) before).0 (Within-start T cfg.num_threads)

    raised :
        Marked (run (start cfg now n) before).pool (run (run (start cfg now n) before) after).pool
    raised = run-Marked (run (start cfg now n) before) after
