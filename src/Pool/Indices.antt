-- ===== src/Pool/Indices.antt =====
-- pool/task_multi_processor.h: the indices of queues that the threads use.
use native.Mathlib.Nat.{mod-lt}
use vectro.Common.{
  ℕ, zero, suc, ◌+◌, ◌≤◌, ◌<◌, ◌≡◌, refl, ap, none, some, List, [], ◌∷◌, ◌++◌, map, length,
  length-set, length-replicate, length-map, length-take_of_le, get_elem?-none, get_elem?, take,
  replicate, arith, Option-cases, inl, inr, All, All-set, All-get_elem?, All-append, All-replicate,
}
use vectro.Pool.{
  TaskProcessorConfig, TaskItem, Processor, Pc, outside, loaded, placing, pushing, pushed, looping,
  waiting, woken, missed, stealing, took, uncounted, calling, reporting, leaving, crashed, ended,
  default_steal_policy, choose, push, take_own, pick_victim, steal, handle_drops, unsnoc,
}
use vectro.Pool.Steal.{default_steal_policy_lem}
use vectro.Pool.System.{
  Choice, submits, goes, time, System, Action, moves, stops, reconfigures, takes_dropped, registers,
  sets_affinity, IsFixed, move, step, run, workers, start,
}

-- The policy that the constructor takes.
abbrev chosen_policy : TaskProcessorConfig → List ℕ → ℕ
chosen_policy cfg = elim cfg.steal_policy [ none ↦ default_steal_policy | some policy ↦ policy ]

-- It names one of the queues.
abbrev pub ChoosesInRange : TaskProcessorConfig → Type 0
ChoosesInRange cfg =
    (sizes : List ℕ) → length sizes ≡ cfg.num_threads → chosen_policy cfg sizes < cfg.num_threads

module _ {T : Type 0} where
  -- The index that a thread will use is below `n`, and it has used none out of range.
  abbrev pub IsInRange : ℕ → Pc T → Type 0
  IsInRange n (pushing ti idx) = idx < n
  IsInRange n (looping id) = id < n
  IsInRange n (waiting id) = id < n
  IsInRange n (woken id) = id < n
  IsInRange n (missed id) = id < n
  IsInRange n (stealing id vic) = (id < n) × (vic < n)
  IsInRange n (took id ti) = id < n
  IsInRange n (uncounted id ti) = id < n
  IsInRange n (calling id ti) = id < n
  IsInRange n (reporting id) = id < n
  IsInRange n (crashed held) = ⊥
  IsInRange n _ = Unit

  module _ (cfg : TaskProcessorConfig) where
    record IsSized (p : Processor T) : Type 0 where
      same : p.cfg ≡ cfg
      policy : p.steal_policy ≡ chosen_policy cfg
      queues : length p.queues ≡ cfg.num_threads

    abbrev Fits : Processor T × Pc T → Type 0
    Fits r = IsSized r.0 × IsInRange cfg.num_threads r.1

    choose-Fits :
        (ti : TaskItem T) (p : Processor T) → 0 < cfg.num_threads → IsSized p → Fits (choose ti p)
    unfolding choose
    choose-Fits ti p pos z = ground (arith, mod-lt p.rr_index {m = cfg.num_threads} pos)

    push-Fits :
        (ti : TaskItem T) (idx : ℕ) (p : Processor T)
        → idx < cfg.num_threads
        → IsSized p
        → Fits (push ti idx p)
    unfolding push
    push-Fits ti idx p lt z = elim (Option-cases (get_elem? p.queues idx)) [
      | inl out ↦ absurd (omega (arith, get_elem?-none p.queues idx out, z.queues))
      | inr (q, e) ↦ ground (arith, e, length-set p.queues idx (q ++ ti ∷ []))
    ]

    take_own-Fits :
        (id : ℕ) (p : Processor T) → id < cfg.num_threads → IsSized p → Fits (take_own id p)
    unfolding take_own
    take_own-Fits id p lt z = elim (Option-cases (get_elem? p.queues id)) [
      | inl out ↦ absurd (omega (arith, get_elem?-none p.queues id out, z.queues))
      | inr ([], e) ↦ ground (arith, e)
      | inr (ti ∷ q, e) ↦ ground (arith, e, length-set p.queues id q)
    ]

    pick_victim-Fits :
        (id : ℕ) (p : Processor T)
        → ChoosesInRange cfg
        → id < cfg.num_threads
        → IsSized p
        → Fits (pick_victim id p)
    pick_victim-Fits id p range lt z = ground (
      arith,
      range (map (λ (q : List (TaskItem T)). length q) (take p.cfg.num_threads p.queues)),
      length-map (λ (q : List (TaskItem T)). length q) (take p.cfg.num_threads p.queues),
      length-take_of_le p.cfg.num_threads p.queues,
    )

    steal-Fits :
        (id vic : ℕ) (p : Processor T)
        → id < cfg.num_threads
        → vic < cfg.num_threads
        → IsSized p
        → Fits (steal id vic p)
    unfolding steal
    steal-Fits id vic p lt vlt z = elim (Option-cases (get_elem? p.queues vic)) [
      | inl out ↦ absurd (omega (arith, get_elem?-none p.queues vic out, z.queues))
      | inr ([], e) ↦ ground (arith, e)
      | inr (x ∷ xs, e) ↦ ground (arith, e, length-set p.queues vic (unsnoc x xs).0)
    ]

    handle_drops-Fits : (now : ℕ) (p : Processor T) → IsSized p → IsSized (handle_drops now p)
    unfolding handle_drops
    handle_drops-Fits now p z = ground arith

    move-Fits :
        (c : Choice T) (p : Processor T) (pc : Pc T)
        → 0 < cfg.num_threads
        → ChoosesInRange cfg
        → IsSized p
        → IsInRange cfg.num_threads pc
        → Fits (move c p pc)
    unfolding move
    move-Fits (submits ti) p outside pos range z h = (z, tt)
    move-Fits (goes now) p outside pos range z h = (z, tt)
    move-Fits c p (loaded ti curr) pos range z h = ground arith
    move-Fits c p (placing ti) pos range z h = choose-Fits ti p pos z
    move-Fits c p (pushing ti idx) pos range z h = push-Fits ti idx p h z
    move-Fits c p pushed pos range z h = ground arith
    move-Fits c p (looping id) pos range z h = ground arith
    move-Fits c p (waiting id) pos range z h = ground arith
    move-Fits c p (woken id) pos range z h = take_own-Fits id p h z
    move-Fits c p (missed id) pos range z h = pick_victim-Fits id p range h z
    move-Fits c p (stealing id vic) pos range z h = steal-Fits id vic p h.0 h.1 z
    move-Fits c p (took id ti) pos range z h = ground arith
    move-Fits c p (uncounted id ti) pos range z h = ground arith
    move-Fits c p (calling id ti) pos range z h = ground arith
    move-Fits c p (reporting id) pos range z h = (handle_drops-Fits (time c) p z, h)
    move-Fits c p leaving pos range z h = ground arith
    move-Fits c p (crashed held) pos range z h = absurd h
    move-Fits c p ended pos range z h = (z, tt)

    record IsSafe (s : System T) : Type 0 where
      pool : IsSized s.pool
      threads : All (IsInRange cfg.num_threads) s.threads

    step-IsSafe :
        (s : System T) (a : Action T)
        → 0 < cfg.num_threads
        → ChoosesInRange cfg
        → IsFixed a
        → IsSafe s
        → IsSafe (step s a)
    unfolding step
    step-IsSafe s (moves place c) pos range p v = elim (Option-cases (get_elem? s.threads place)) [
      | inl gone ↦ rw (gone, step) v
      | inr (pc, e) ↦
          let next =
            move-Fits c s.pool pc pos range v.pool
              (All-get_elem? (IsInRange cfg.num_threads) s.threads place pc e v.threads) in
          rw (e, step)
            (record {
              pool = next.0;
              threads =
                  All-set (IsInRange cfg.num_threads) s.threads place (move c s.pool pc).1 next.1
                    v.threads;
            })
    ]
    step-IsSafe s stops pos range p v = ground arith
    step-IsSafe s takes_dropped pos range p v = ground arith
    step-IsSafe s (registers cb) pos range p v = ground arith
    step-IsSafe s (sets_affinity fn) pos range p v = ground arith
    step-IsSafe s (reconfigures c) pos range p v = absurd p

    run-IsSafe :
        (s : System T) (actions : List (Action T))
        → 0 < cfg.num_threads
        → ChoosesInRange cfg
        → All IsFixed actions
        → IsSafe s
        → IsSafe (run s actions)
    unfolding run
    run-IsSafe s [] pos range p v = v
    run-IsSafe s (a ∷ actions) pos range p v =
        run-IsSafe (step s a) actions pos range p.1 (step-IsSafe s a pos range p.0 v)

workers-IsInRange :
    (T : Type 0) (n k id : ℕ) → id + k ≤ n → All (IsInRange {T = T} n) (workers k id)
workers-IsInRange T n zero id h = tt
workers-IsInRange T n (suc k) id h = (omega arith, workers-IsInRange T n k (suc id) (omega arith))

-- With at least one worker, a steal policy that answers below the number of workers for as many sizes,
-- and any interleaving in which the configuration is not replaced: no thread has used an index out of
-- range or a remainder by 0, and every index that a thread holds is that of a queue.
pub run-IsInRange :
    {T : Type 0} (cfg : TaskProcessorConfig) (now n : ℕ) (actions : List (Action T))
    → 0 < cfg.num_threads
    → ChoosesInRange cfg
    → All IsFixed actions
    → All (IsInRange cfg.num_threads) (run (start cfg now n) actions).threads
run-IsInRange {T} cfg now n actions pos range p =
    (run-IsSafe cfg (start cfg now n) actions pos range p begun).threads
  where
    begun : IsSafe cfg (start {T = T} cfg now n)
    begun = record {
      pool = record {
        same = refl;
        policy = refl;
        queues = length-replicate {A = List (TaskItem T)} cfg.num_threads [];
      };
      threads =
          All-append (IsInRange cfg.num_threads) (workers cfg.num_threads 0) (replicate n outside)
            (workers-IsInRange T cfg.num_threads cfg.num_threads 0 (omega arith))
            (All-replicate (IsInRange cfg.num_threads) n outside tt);
    }

-- The default policy chooses in range.
pub default-ChoosesInRange :
    (cfg : TaskProcessorConfig) → cfg.steal_policy ≡ none → 0 < cfg.num_threads → ChoosesInRange cfg
default-ChoosesInRange cfg e pos sizes size = rw e (
    omega (
      arith,
      size,
      (default_steal_policy_lem sizes (λ nil. omega (arith, ap length nil, size, pos))).0,
    ))
