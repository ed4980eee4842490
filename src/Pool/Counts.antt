-- ===== src/Pool/Counts.antt =====
-- pool/task_multi_processor.h: what `tasks_in_queue_` counts while threads interleave.
use vectro.Common.{
  ℕ, zero, suc, ◌+◌, ◌%◌, ◌≡◌, inl, inr, refl, ap, some, List, [], ◌∷◌, ◌++◌, length, length-append,
  get_elem?, set, replicate, total, total-append, total-set_at, arith, Option-cases,
}
use vectro.Pool.{
  TaskProcessorConfig, TaskItem, Processor, Pc, outside, loaded, placing, pushing, pushed, looping,
  waiting, woken, missed, stealing, took, uncounted, calling, reporting, leaving, crashed, ended,
  word, choose, push, take_own, steal, handle_drops, unsnoc,
}
use vectro.Pool.System.{
  Choice, time, workers, submits, goes, System, Action, moves, stops, reconfigures, takes_dropped,
  registers, sets_affinity, move, step, run, start,
}

module _ {T : Type 0} where
  -- A task that is in a queue and not yet counted; one that is counted and has left its queue.
  abbrev pub uncounted_push : Pc T → ℕ
  uncounted_push pushed = 1
  uncounted_push _ = 0

  abbrev pub uncounted_pop : Pc T → ℕ
  uncounted_pop (took id ti) = 1
  uncounted_pop _ = 0

  abbrev pub queued : Processor T → ℕ
  queued p = total (λ (q : List (TaskItem T)). length q) p.queues

  pub length-unsnoc : (x : TaskItem T) (xs : List (TaskItem T)) → length (unsnoc x xs).0 ≡ length xs
  length-unsnoc x [] = refl
  length-unsnoc x (y ∷ ys) = ap suc (length-unsnoc y ys)

  -- What a step of one thread does to the count, the queues and the thread itself.
  abbrev KeepsCount : Processor T → Pc T → Processor T × Pc T → Type 0
  KeepsCount p pc r =
      (r.0.tasks_in_queue + uncounted_push r.1 + queued p + uncounted_pop pc) % word
      ≡ (p.tasks_in_queue + uncounted_push pc + queued r.0 + uncounted_pop r.1) % word

  choose-KeepsCount : (ti : TaskItem T) (p : Processor T) → KeepsCount p (placing ti) (choose ti p)
  unfolding choose
  choose-KeepsCount ti p = ground arith

  push-KeepsCount :
      (ti : TaskItem T) (idx : ℕ) (p : Processor T) → KeepsCount p (pushing ti idx) (push ti idx p)
  unfolding push
  push-KeepsCount ti idx p = elim (Option-cases (get_elem? p.queues idx)) [
    | inl out ↦ rw (out, push) refl
    | inr (q, e) ↦
        rw (e, push)
          (omega (
            arith,
            length-append q (ti ∷ []),
            total-set_at (λ (q : List (TaskItem T)). length q) p.queues idx q (q ++ ti ∷ []) e,
          ))
  ]

  take_own-KeepsCount : (id : ℕ) (p : Processor T) → KeepsCount p (woken id) (take_own id p)
  unfolding take_own
  take_own-KeepsCount id p = elim (Option-cases (get_elem? p.queues id)) [
    | inl out ↦ rw (out, take_own) refl
    | inr ([], e) ↦ rw (e, take_own) (ground arith)
    | inr (ti ∷ q, e) ↦
        rw (e, take_own)
          (omega
            (arith, total-set_at (λ (q : List (TaskItem T)). length q) p.queues id (ti ∷ q) q e))
  ]

  steal-KeepsCount :
      (id vic : ℕ) (p : Processor T) → KeepsCount p (stealing id vic) (steal id vic p)
  unfolding steal
  steal-KeepsCount id vic p = elim (Option-cases (get_elem? p.queues vic)) [
    | inl out ↦ rw (out, steal) refl
    | inr ([], e) ↦ rw (e, steal) refl
    | inr (x ∷ xs, e) ↦
        rw (e, steal)
          (omega (
            arith,
            length-unsnoc x xs,
            total-set_at (λ (q : List (TaskItem T)). length q) p.queues vic (x ∷ xs) (unsnoc x xs).0
                e,
          ))
  ]

  pub handle_drops-keeps :
      (now : ℕ) (p : Processor T)
      → ((handle_drops now p).tasks_in_queue ≡ p.tasks_in_queue)
        × ((handle_drops now p).queues ≡ p.queues)
        × ((handle_drops now p).delivered ≡ p.delivered)
  unfolding handle_drops
  handle_drops-keeps now p = ground arith

  pub move-KeepsCount : (c : Choice T) (p : Processor T) (pc : Pc T) → KeepsCount p pc (move c p pc)
  unfolding move
  move-KeepsCount (submits ti) p outside = refl
  move-KeepsCount (goes now) p outside = refl
  move-KeepsCount c p (loaded ti curr) = ground arith
  move-KeepsCount c p (placing ti) = choose-KeepsCount ti p
  move-KeepsCount c p (pushing ti idx) = push-KeepsCount ti idx p
  move-KeepsCount c p pushed = omega arith
  move-KeepsCount c p (looping id) = ground arith
  move-KeepsCount c p (waiting id) = ground arith
  move-KeepsCount c p (woken id) = take_own-KeepsCount id p
  move-KeepsCount c p (missed id) = ground arith
  move-KeepsCount c p (stealing id vic) = steal-KeepsCount id vic p
  move-KeepsCount c p (took id ti) = omega arith
  move-KeepsCount c p (uncounted id ti) = refl
  move-KeepsCount c p (calling id ti) = refl
  move-KeepsCount c p (reporting id) = ground (arith, handle_drops-keeps (time c) p)
  move-KeepsCount c p leaving = refl
  move-KeepsCount c p (crashed held) = refl
  move-KeepsCount c p ended = refl

  -- The counter, with the pushes that are still to be counted, is what the queues hold, with the
  -- pops that are still to be counted: modulo 2 ^ 64, since the counter may run below 0.
  abbrev pub IsCounted : System T → Type 0
  IsCounted s =
      (s.pool.tasks_in_queue + total uncounted_push s.threads) % word
      ≡ (queued s.pool + total uncounted_pop s.threads) % word

  -- One thread's step, seen in the sums over all threads.
  pub exchange :
      (s : System T) (place : ℕ) (pc : Pc T) (r : Processor T × Pc T)
      → get_elem? s.threads place ≡ some pc
      → KeepsCount s.pool pc r
      → IsCounted s
      → IsCounted (record { pool = r.0; threads = set s.threads place r.1 })
  exchange s place pc r e k h = omega (
    arith,
    k,
    h,
    total-set_at uncounted_push s.threads place pc r.1 e,
    total-set_at uncounted_pop s.threads place pc r.1 e,
  )

  step-IsCounted : (s : System T) (a : Action T) → IsCounted s → IsCounted (step s a)
  unfolding step
  step-IsCounted s (moves place c) h = elim (Option-cases (get_elem? s.threads place)) [
    | inl gone ↦ rw (gone, step) h
    | inr (pc, e) ↦
        rw (e, step) (exchange s place pc (move c s.pool pc) e (move-KeepsCount c s.pool pc) h)
  ]
  step-IsCounted s stops h = h
  step-IsCounted s takes_dropped h = h
  step-IsCounted s (registers cb) h = h
  step-IsCounted s (sets_affinity fn) h = h
  step-IsCounted s (reconfigures cfg) h = h

  run-IsCounted_from :
      (s : System T) (actions : List (Action T)) → IsCounted s → IsCounted (run s actions)
  unfolding run
  run-IsCounted_from s [] h = h
  run-IsCounted_from s (a ∷ actions) h =
      run-IsCounted_from (step s a) actions (step-IsCounted s a h)

  -- A weight that a thread outside the code does not have.
  pub total-start :
      (w : Pc T → ℕ) (cfg : TaskProcessorConfig) (now n : ℕ)
      → w outside ≡ 0
      → ((id : ℕ) → w (looping id) ≡ 0)
      → total w (start cfg now n).threads ≡ 0
  total-start w cfg now n out loop = omega (
    arith,
    total-append w (workers cfg.num_threads 0) (replicate n outside),
    at_loop cfg.num_threads 0,
    at_outside n,
  )
    where
      at_loop : (k id : ℕ) → total w (workers k id) ≡ 0
      at_loop zero id = refl
      at_loop (suc k) id = omega (arith, loop id, at_loop k (suc id))

      at_outside : (k : ℕ) → total w (replicate k outside) ≡ 0
      at_outside zero = refl
      at_outside (suc k) = omega (arith, out, at_outside k)

  pub total-replicate_nil :
      (w : List (TaskItem T) → ℕ) (k : ℕ) → w [] ≡ 0 → total w (replicate k []) ≡ 0
  total-replicate_nil w zero h = refl
  total-replicate_nil w (suc k) h = omega (arith, h, total-replicate_nil w k h)

pub start-IsCounted :
    (T : Type 0) (cfg : TaskProcessorConfig) (now n : ℕ) → IsCounted {T = T} (start cfg now n)
start-IsCounted T cfg now n = omega (
  arith,
  total-start {T = T} uncounted_push cfg now n refl (λ id. refl),
  total-start {T = T} uncounted_pop cfg now n refl (λ id. refl),
  total-replicate_nil {T = T} (λ q. length q) cfg.num_threads refl,
)

-- In any interleaving, modulo `2 ^ 64`: `tasks_in_queue_` with the pushes that are not yet counted
-- is the number of queued tasks with the pops that are not yet counted off.
pub run-IsCounted :
    {T : Type 0} (cfg : TaskProcessorConfig) (now n : ℕ) (actions : List (Action T))
    → IsCounted (run (start cfg now n) actions)
run-IsCounted {T} cfg now n actions =
    run-IsCounted_from (start cfg now n) actions (start-IsCounted T cfg now n)
