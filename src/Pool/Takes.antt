-- ===== src/Pool/Takes.antt =====
-- pool/task_multi_processor.h: how many tasks a worker takes once the destructor has cleared
-- `running_`.
use vectro.Common.{
  ℕ, ◌+◌, ◌≤◌, ◌≡◌, inl, inr, false, Option, none, some, List, [], ◌∷◌, nat_beq, if◌then◌else◌,
  get_elem?, total, arith, Bool-cases, refl,
}
use vectro.Pool.{
  Processor, Pc, outside, loaded, placing, pushing, pushed, looping, waiting, woken, missed,
  stealing, took, uncounted, calling, reporting, leaving, crashed, ended, choose, push, take_own,
  steal,
}
use vectro.Pool.System.{
  Choice, System, Action, moves, stops, reconfigures, takes_dropped, registers, sets_affinity, move,
  step, run,
}
use vectro.Pool.Counts.{queued}
use vectro.Pool.Shutdown.{may_take, step-Rests, run_stopped}
use vectro.Pool.Exits.{next, get_elem?-step}

module _ {T : Type 0} where
  -- The thread has just taken a task out of a queue.
  abbrev just_took : Pc T → ℕ
  just_took (took id ti) = 1
  just_took _ = 0

  abbrev holds : Option (Pc T) → ℕ
  holds none = 0
  holds (some pc) = just_took pc

  -- Whether this action is a step of the thread `i` that takes a task.
  abbrev taking : ℕ → System T → Action T → ℕ
  taking i s (moves place c) =
      if nat_beq place i then holds (get_elem? (step s (moves place c)).threads i) else 0
  taking i s _ = 0

  -- How many tasks the thread `i` takes.
  abbrev pub takes : ℕ → System T → List (Action T) → ℕ
  takes i s [] = 0
  takes i s (a ∷ actions) = taking i s a + takes i (step s a) actions

  move-just_took :
      (c : Choice T) (p : Processor T) (pc : Pc T)
      → p.running ≡ false
      → just_took (move c p pc).1 + may_take (move c p pc).1 ≤ may_take pc
  unfolding move take_own steal choose push
  move-just_took c p outside h = ground arith
  move-just_took c p (loaded ti curr) h = ground arith
  move-just_took c p (placing ti) h = ground arith
  move-just_took c p (pushing ti idx) h = ground arith
  move-just_took c p pushed h = ground arith
  move-just_took c p (looping id) h = ground (arith, h)
  move-just_took c p (waiting id) h = ground (arith, h)
  move-just_took c p (woken id) h = ground arith
  move-just_took c p (missed id) h = ground arith
  move-just_took c p (stealing id vic) h = ground arith
  move-just_took c p (took id ti) h = ground arith
  move-just_took c p (uncounted id ti) h = ground arith
  move-just_took c p (calling id ti) h = ground arith
  move-just_took c p (reporting id) h = ground arith
  move-just_took c p leaving h = ground arith
  move-just_took c p (crashed held) h = ground arith
  move-just_took c p ended h = ground arith

  step-taking :
      (i : ℕ) (s : System T) (a : Action T) (pc : Pc T)
      → s.pool.running ≡ false
      → get_elem? s.threads i ≡ some pc
      → taking i s a + may_take (next i s a pc) ≤ may_take pc
  step-taking i s (moves place c) pc h at = elim (Bool-cases (nat_beq place i)) [
    | inl own ↦
        ground (arith, own, get_elem?-step i s (moves place c) pc at, move-just_took c s.pool pc h)
    | inr other ↦ rw other (omega arith)
  ]
  step-taking i s stops pc h at = omega arith
  step-taking i s (reconfigures cfg) pc h at = omega arith
  step-taking i s takes_dropped pc h at = omega arith
  step-taking i s (registers cb) pc h at = omega arith
  step-taking i s (sets_affinity fn) pc h at = omega arith

  run-takes :
      (i : ℕ) (s : System T) (pc : Pc T) (actions : List (Action T))
      → s.pool.running ≡ false
      → get_elem? s.threads i ≡ some pc
      → takes i s actions ≤ may_take pc
  run-takes i s pc [] h at = omega arith
  run-takes i s pc (a ∷ actions) h at = omega (
    arith,
    step-taking i s a pc h at,
    run-takes i (step s a) (next i s a pc) actions (step-Rests s a h).stopped
        (get_elem?-step i s a pc at),
  )

  may_take-le : (pc : Pc T) → may_take pc ≤ 1
  may_take-le pc = ground arith

  -- Once the destructor has cleared `running_`, from any state and in any interleaving, also with
  -- threads that go on submitting: a thread takes at most as many tasks as `may_take` says of where it
  -- then stands, which is 1 for a worker that is already past the test of its loop and has not taken a
  -- task yet, and 0 for any other; and the queues never end up shorter by more than the number of
  -- those workers.
  pub takes_stopped :
      (i : ℕ) (s : System T) (pc : Pc T) (actions : List (Action T))
      → get_elem? s.threads i ≡ some pc
      → (takes i s (stops ∷ actions) ≤ may_take pc)
        × (may_take pc ≤ 1)
        × (queued s.pool ≤ queued (run s (stops ∷ actions)).pool + total may_take s.threads)
  unfolding step
  takes_stopped i s pc actions at = (
    omega (arith, run-takes i (step s stops) pc actions refl at),
    may_take-le pc,
    run_stopped s actions,
  )
