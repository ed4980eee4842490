-- ===== src/Pool/Exits.antt =====
-- pool/task_multi_processor.h: the workers' way out of ProcessLoop, once `running_` is cleared.
use mathlib.Core.Path.{subst}
use vectro.Common.{
  ℕ, zero, suc, ◌+◌, ◌-◌, ◌≤◌, ◌<◌, ◌≡◌, refl, ap, ◌∙◌, false, some, List, [], ◌∷◌, ◌++◌, nat_beq,
  if◌then◌else◌, get_elem?, set, replicate, arith, Option-cases, Bool-cases, inl, inr, All,
  All-append, All-get_elem?, get_elem?-set, get_elem?-set_other,
}
use vectro.Pool.{
  TaskProcessorConfig, Processor, Pc, outside, loaded, placing, pushing, pushed, looping, waiting,
  woken, missed, stealing, took, uncounted, calling, reporting, leaving, crashed, ended, take_own,
  steal,
}
use vectro.Pool.System.{
  Choice, System, Action, moves, stops, reconfigures, takes_dropped, registers, sets_affinity,
  IsFixed, move, step, run, workers, start,
}
use vectro.Pool.Indices.{ChoosesInRange, IsInRange, run-IsInRange}
use vectro.Pool.Shutdown.{step-Rests}

-- The steps of this thread.
abbrev own_moves : {T : Type 0} → ℕ → List (Action T) → ℕ
own_moves i [] = 0
own_moves i (moves place c ∷ actions) = (if nat_beq place i then 1 else 0) + own_moves i actions
own_moves i (_ ∷ actions) = own_moves i actions

module _ {T : Type 0} where
  -- How many steps a worker may still take.
  abbrev rank : Pc T → ℕ
  rank (waiting id) = 10
  rank (woken id) = 9
  rank (missed id) = 8
  rank (stealing id vic) = 7
  rank (took id ti) = 6
  rank (uncounted id ti) = 5
  rank (calling id ti) = 4
  rank (reporting id) = 3
  rank (looping id) = 2
  rank leaving = 1
  rank _ = 0

  abbrev IsWorker : Pc T → Type 0
  IsWorker outside = ⊥
  IsWorker (loaded ti curr) = ⊥
  IsWorker (placing ti) = ⊥
  IsWorker (pushing ti idx) = ⊥
  IsWorker pushed = ⊥
  IsWorker _ = Unit

  move-IsWorker :
      (c : Choice T) (p : Processor T) (pc : Pc T) → IsWorker pc → IsWorker (move c p pc).1
  unfolding move take_own steal
  move-IsWorker c p outside w = absurd w
  move-IsWorker c p (loaded ti curr) w = absurd w
  move-IsWorker c p (placing ti) w = absurd w
  move-IsWorker c p (pushing ti idx) w = absurd w
  move-IsWorker c p pushed w = absurd w
  move-IsWorker c p (looping id) w = ground arith
  move-IsWorker c p (waiting id) w = ground arith
  move-IsWorker c p (woken id) w = ground arith
  move-IsWorker c p (missed id) w = ground arith
  move-IsWorker c p (stealing id vic) w = ground arith
  move-IsWorker c p (took id ti) w = tt
  move-IsWorker c p (uncounted id ti) w = tt
  move-IsWorker c p (calling id ti) w = tt
  move-IsWorker c p (reporting id) w = tt
  move-IsWorker c p leaving w = tt
  move-IsWorker c p (crashed held) w = tt
  move-IsWorker c p ended w = tt

  move-rank :
      (c : Choice T) (p : Processor T) (pc : Pc T)
      → p.running ≡ false
      → IsWorker pc
      → rank (move c p pc).1 ≤ rank pc - 1
  unfolding move take_own steal
  move-rank c p outside h w = absurd w
  move-rank c p (loaded ti curr) h w = absurd w
  move-rank c p (placing ti) h w = absurd w
  move-rank c p (pushing ti idx) h w = absurd w
  move-rank c p pushed h w = absurd w
  move-rank c p (looping id) h w = ground arith
  move-rank c p (waiting id) h w = ground arith
  move-rank c p (woken id) h w = ground arith
  move-rank c p (missed id) h w = ground arith
  move-rank c p (stealing id vic) h w = ground arith
  move-rank c p (took id ti) h w = omega arith
  move-rank c p (uncounted id ti) h w = omega arith
  move-rank c p (calling id ti) h w = omega arith
  move-rank c p (reporting id) h w = omega arith
  move-rank c p leaving h w = omega arith
  move-rank c p (crashed held) h w = omega arith
  move-rank c p ended h w = omega arith

  rank-le : (pc : Pc T) → rank pc ≤ 10
  rank-le pc = ground arith

  -- Where the thread `i`, at `pc`, stands after an action.
  abbrev pub next : ℕ → System T → Action T → Pc T → Pc T
  next i s (moves place c) pc = if nat_beq place i then (move c s.pool pc).1 else pc
  next i s _ pc = pc

  pub get_elem?-step :
      (i : ℕ) (s : System T) (a : Action T) (pc : Pc T)
      → get_elem? s.threads i ≡ some pc
      → get_elem? (step s a).threads i ≡ some (next i s a pc)
  unfolding step
  get_elem?-step i s (moves place c) pc at = elim (Bool-cases (nat_beq place i)) [
    | inl own ↦
        let same : place ≡ i = ground (arith, own) in
        let e : get_elem? s.threads place ≡ some pc = ap (get_elem? s.threads) same ∙ at in
        rw (e, own, step)
          (subst
            (λ j.
              get_elem? (set s.threads place (move c s.pool pc).1) j ≡ some (move c s.pool pc).1)
            same (get_elem?-set s.threads place pc (move c s.pool pc).1 e))
    | inr other ↦ elim (Option-cases (get_elem? s.threads place)) [
      | inl gone ↦ rw (gone, other, step) at
      | inr (x, e) ↦
          rw (e, other, step)
            (get_elem?-set_other s.threads place i (move c s.pool x).1
                (λ same. ground (arith, other, same))
              ∙ at)
    ]
  ]
  get_elem?-step i s stops pc at = at
  get_elem?-step i s (reconfigures cfg) pc at = at
  get_elem?-step i s takes_dropped pc at = at
  get_elem?-step i s (registers cb) pc at = at
  get_elem?-step i s (sets_affinity fn) pc at = at

  next-IsWorker :
      (i : ℕ) (s : System T) (a : Action T) (pc : Pc T) → IsWorker pc → IsWorker (next i s a pc)
  next-IsWorker i s (moves place c) pc w = elim (Bool-cases (nat_beq place i)) [
    | inl own ↦ rw own (move-IsWorker c s.pool pc w)
    | inr other ↦ rw other w
  ]
  next-IsWorker i s stops pc w = w
  next-IsWorker i s (reconfigures cfg) pc w = w
  next-IsWorker i s takes_dropped pc w = w
  next-IsWorker i s (registers cb) pc w = w
  next-IsWorker i s (sets_affinity fn) pc w = w

  next-rank :
      (i : ℕ) (s : System T) (a : Action T) (pc : Pc T)
      → s.pool.running ≡ false
      → IsWorker pc
      → rank (next i s a pc) ≤ rank pc - own_moves i (a ∷ [])
  next-rank i s (moves place c) pc h w = elim (Bool-cases (nat_beq place i)) [
    | inl own ↦ rw own (move-rank c s.pool pc h w)
    | inr other ↦ rw other (omega arith)
  ]
  next-rank i s stops pc h w = omega arith
  next-rank i s (reconfigures cfg) pc h w = omega arith
  next-rank i s takes_dropped pc h w = omega arith
  next-rank i s (registers cb) pc h w = omega arith
  next-rank i s (sets_affinity fn) pc h w = omega arith

  own_moves-cons :
      (i : ℕ) (a : Action T) (actions : List (Action T))
      → own_moves i (a ∷ actions) ≡ own_moves i (a ∷ []) + own_moves i actions
  own_moves-cons i (moves place c) actions = omega arith
  own_moves-cons i stops actions = omega arith
  own_moves-cons i (reconfigures cfg) actions = omega arith
  own_moves-cons i takes_dropped actions = omega arith
  own_moves-cons i (registers cb) actions = omega arith
  own_moves-cons i (sets_affinity fn) actions = omega arith

  -- The thread `i` is a worker.
  record Stands (i : ℕ) (s : System T) : Type 0 where
    pc : Pc T
    here : get_elem? s.threads i ≡ some pc
    worker : IsWorker pc

  run-Stands :
      (i : ℕ) (actions : List (Action T)) (s : System T) → Stands i s → Stands i (run s actions)
  unfolding run
  run-Stands i [] s at = at
  run-Stands i (a ∷ actions) s at = run-Stands i actions (step s a) (record {
    pc = next i s a at.pc;
    here = get_elem?-step i s a at.pc at.here;
    worker = next-IsWorker i s a at.pc at.worker;
  })

  -- Each step of the worker leaves it one less.
  run-rank :
      (i : ℕ) (actions : List (Action T)) (s : System T) (pc : Pc T)
      → s.pool.running ≡ false
      → get_elem? s.threads i ≡ some pc
      → IsWorker pc
      → rank pc ≤ own_moves i actions
      → (last : Pc T) × (get_elem? (run s actions).threads i ≡ some last)
        × IsWorker last
        × (rank last ≡ 0)
  unfolding run
  run-rank i [] s pc h at w le = (pc, at, w, omega (arith, le))
  run-rank i (a ∷ actions) s pc h at w le =
      run-rank i actions (step s a) (next i s a pc) (step-Rests s a h).stopped
        (get_elem?-step i s a pc at) (next-IsWorker i s a pc w)
        (omega (arith, le, next-rank i s a pc h w, own_moves-cons i a actions))

  run-append : (xs ys : List (Action T)) (s : System T) → run s (xs ++ ys) ≡ run (run s xs) ys
  unfolding run
  run-append [] ys s = refl
  run-append (a ∷ xs) ys s = run-append xs ys (step s a)

  -- A worker without a step left, which has not crashed.
  rank-ended : (n : ℕ) (pc : Pc T) → IsWorker pc → rank pc ≡ 0 → IsInRange n pc → pc ≡ ended
  rank-ended n (crashed held) w e r = absurd r
  rank-ended n pc w e r = ground arith

  get_elem?-workers :
      (i n id : ℕ) (rest : List (Pc T))
      → i < n
      → get_elem? (workers n id ++ rest) i ≡ some (looping (id + i))
  get_elem?-workers i zero id rest lt = elim lt [ ]
  get_elem?-workers zero (suc n) id rest lt = ground arith
  get_elem?-workers (suc i) (suc n) id rest lt =
      get_elem?-workers i n (suc id) rest (omega (arith, lt)) ∙ ground arith

-- With an unchanged configuration whose choices are in range, once `running_` has been cleared a
-- worker thread that takes ten more steps has left its loop and ended, whatever the threads did before
-- and whatever the others do.
pub run-ended :
    {T : Type 0} (cfg : TaskProcessorConfig) (now k i : ℕ) (before after : List (Action T))
    → i < cfg.num_threads
    → ChoosesInRange cfg
    → All IsFixed before
    → All IsFixed after
    → 10 ≤ own_moves i after
    → get_elem? (run (start cfg now k) (before ++ stops ∷ after)).threads i ≡ some ended
unfolding run step
run-ended {T} cfg now k i before after lt range fb fa enough =
    let s = run (start {T = T} cfg now k) before in
    let at = run-Stands i before (start cfg now k) (record {
      pc = looping (0 + i);
      here = get_elem?-workers i cfg.num_threads 0 (replicate k outside) lt;
      worker = tt;
    }) in
    let r =
      run-rank i after (step s stops) at.pc refl at.here at.worker
        (omega (arith, enough, rank-le at.pc)) in
    let whole : run (start cfg now k) (before ++ stops ∷ after) ≡ run (step s stops) after =
      run-append before (stops ∷ after) (start cfg now k) in
    let found : get_elem? (run (start cfg now k) (before ++ stops ∷ after)).threads i ≡ some r.0 =
      ap (λ (t : System T). get_elem? t.threads i) whole ∙ r.1 in
    let safe =
      All-get_elem? (IsInRange cfg.num_threads)
        (run (start cfg now k) (before ++ stops ∷ after)).threads i r.0 found
        (run-IsInRange cfg now k (before ++ stops ∷ after) (omega (arith, lt)) range
          (All-append IsFixed before (stops ∷ after) fb (tt, fa))) in
    found ∙ ap some (rank-ended cfg.num_threads r.0 r.2 r.3 safe)
