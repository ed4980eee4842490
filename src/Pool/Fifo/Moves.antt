-- ===== src/Pool/Fifo/Moves.antt =====
-- pool/task_multi_processor.h in the mode FIFO: each step of the first worker and of any other thread.
use mathlib.Core.List.{append_assoc, append-nil}
use vectro.Common.{
  ℕ, zero, suc, ◌<◌, ◌≡◌, refl, none, some, List, [], ◌∷◌, ◌++◌, get_elem?, arith, Option-cases,
  inl, inr, All, All-get_elem?,
}
use vectro.Pool.{
  fifo, TaskItem, Processor, Pc, outside, loaded, placing, pushing, pushed, looping, waiting, woken,
  missed, stealing, took, uncounted, calling, reporting, leaving, crashed, ended, push, take_own,
}
use vectro.Pool.System.{Choice, submits, goes, move}

module _ {T : Type 0} where
  abbrev pub first_queue : List (List (TaskItem T)) → List (TaskItem T)
  first_queue [] = []
  first_queue (q ∷ qs) = q

  -- The other queues are empty.
  abbrev pub OnlyFirst : List (List (TaskItem T)) → Type 0
  OnlyFirst [] = Unit
  OnlyFirst (q ∷ qs) = All (λ (r : List (TaskItem T)). r ≡ []) qs

  -- The task that the worker has taken and not yet delivered.
  abbrev pub taken : Pc T → List (TaskItem T)
  taken (took id ti) = ti ∷ []
  taken (uncounted id ti) = ti ∷ []
  taken (calling id ti) = ti ∷ []
  taken _ = []

  abbrev pub first_taken : List (Pc T) → List (TaskItem T)
  first_taken [] = []
  first_taken (pc ∷ pcs) = taken pc

  -- The task that a step puts into the queue.
  abbrev pub pushes : Processor T → Pc T → List (TaskItem T)
  pushes p (pushing ti idx) = elim (get_elem? p.queues idx) [ none ↦ [] | some q ↦ ti ∷ [] ]
  pushes p _ = []

  -- The first worker, and any other thread.
  abbrev pub IsFirst : Pc T → Type 0
  IsFirst (looping id) = id ≡ 0
  IsFirst (waiting id) = id ≡ 0
  IsFirst (woken id) = id ≡ 0
  IsFirst (took id ti) = id ≡ 0
  IsFirst (uncounted id ti) = id ≡ 0
  IsFirst (calling id ti) = id ≡ 0
  IsFirst (reporting id) = id ≡ 0
  IsFirst leaving = Unit
  IsFirst ended = Unit
  IsFirst (crashed held) = Unit
  IsFirst _ = ⊥

  abbrev pub IsOther : Pc T → Type 0
  IsOther (pushing ti idx) = idx ≡ 0
  IsOther (looping id) = 0 < id
  IsOther (waiting id) = 0 < id
  IsOther (woken id) = 0 < id
  IsOther (reporting id) = 0 < id
  IsOther (missed id) = ⊥
  IsOther (stealing id vic) = ⊥
  IsOther (took id ti) = ⊥
  IsOther (uncounted id ti) = ⊥
  IsOther (calling id ti) = ⊥
  IsOther _ = Unit

  pub record IsSingle (p : Processor T) : Type 0 where
    pub mode : p.cfg.mode ≡ fifo
    pub only : OnlyFirst p.queues

  -- A step of the first worker.
  pub record FirstStep (p : Processor T) (pc : Pc T) (r : Processor T × Pc T) : Type 0 where
    pub single : IsSingle r.0
    pub again : IsFirst r.1
    pub order :
        r.0.delivered ++ (taken r.1 ++ first_queue r.0.queues)
        ≡ p.delivered ++ (taken pc ++ first_queue p.queues)

  -- A step of another thread.
  pub record OtherStep (p : Processor T) (pc : Pc T) (r : Processor T × Pc T) : Type 0 where
    pub single : IsSingle r.0
    pub again : IsOther r.1
    pub still : r.0.delivered ≡ p.delivered
    pub order : first_queue r.0.queues ≡ first_queue p.queues ++ pushes p pc

  empty_behind :
      (qs : List (List (TaskItem T))) (id : ℕ) (q : List (TaskItem T))
      → 0 < id
      → OnlyFirst qs
      → get_elem? qs id ≡ some q
      → q ≡ []
  empty_behind [] id q lt h e = absurd (ground arith)
  empty_behind (r ∷ qs) zero q lt h e = absurd (omega arith)
  empty_behind (r ∷ qs) (suc id) q lt h e =
      All-get_elem? (λ (r : List (TaskItem T)). r ≡ []) qs id q e h

  take_own-FirstStep : (p : Processor T) → IsSingle p → FirstStep p (woken 0) (take_own 0 p)
  unfolding take_own
  take_own-FirstStep p z = by_queues p.queues refl
    where
      by_queues :
          (qs : List (List (TaskItem T))) → p.queues ≡ qs → FirstStep p (woken 0) (take_own 0 p)
      by_queues [] e = ground (arith, z.mode, e)
      by_queues ([] ∷ qs) e = ground (arith, z.mode, z.only, e)
      by_queues ((ti ∷ q) ∷ qs) e = ground (arith, z.mode, z.only, e)

  pub move-FirstStep :
      (c : Choice T) (p : Processor T) (pc : Pc T)
      → IsSingle p
      → IsFirst pc
      → FirstStep p pc (move c p pc)
  unfolding move
  move-FirstStep c p (looping id) z h = ground arith
  move-FirstStep c p (waiting id) z h = ground arith
  move-FirstStep c p (woken id) z h = rw h (take_own-FirstStep p z)
  move-FirstStep c p (took id ti) z h = ground arith
  move-FirstStep c p (uncounted id ti) z h = ground arith
  move-FirstStep c p (calling id ti) z h =
      ground (arith, append_assoc p.delivered (ti ∷ []) (first_queue p.queues))
  move-FirstStep c p (reporting id) z h = ground arith
  move-FirstStep c p leaving z h = ground arith
  move-FirstStep c p (crashed held) z h = ground arith
  move-FirstStep c p ended z h = ground arith
  move-FirstStep c p outside z h = absurd h
  move-FirstStep c p (loaded ti curr) z h = absurd h
  move-FirstStep c p (placing ti) z h = absurd h
  move-FirstStep c p (pushing ti idx) z h = absurd h
  move-FirstStep c p pushed z h = absurd h
  move-FirstStep c p (missed id) z h = absurd h
  move-FirstStep c p (stealing id vic) z h = absurd h

  push-OtherStep :
      (ti : TaskItem T) (p : Processor T) → IsSingle p → OtherStep p (pushing ti 0) (push ti 0 p)
  unfolding push
  push-OtherStep ti p z = by_queues p.queues refl
    where
      by_queues :
          (qs : List (List (TaskItem T))) → p.queues ≡ qs → OtherStep p (pushing ti 0) (push ti 0 p)
      by_queues [] e = ground (arith, z.mode, e)
      by_queues (q ∷ qs) e = ground (arith, z.mode, z.only, e)

  take_own-OtherStep :
      (id : ℕ) (p : Processor T) → 0 < id → IsSingle p → OtherStep p (woken id) (take_own id p)
  unfolding take_own
  take_own-OtherStep id p lt z = elim (Option-cases (get_elem? p.queues id)) [
    | inl out ↦ ground (arith, out, append-nil (first_queue p.queues), z.mode, z.only)
    | inr (q, e) ↦ ground (
      arith,
      e,
      empty_behind p.queues id q lt z.only,
      append-nil (first_queue p.queues),
      z.mode,
      z.only,
    )
  ]

  pub move-OtherStep :
      (c : Choice T) (p : Processor T) (pc : Pc T)
      → IsSingle p
      → IsOther pc
      → OtherStep p pc (move c p pc)
  unfolding move
  move-OtherStep (submits ti) p outside z h = ground (arith, append-nil (first_queue p.queues))
  move-OtherStep (goes now) p outside z h = ground (arith, append-nil (first_queue p.queues))
  move-OtherStep c p (loaded ti curr) z h = ground (arith, append-nil (first_queue p.queues))
  move-OtherStep c p (placing ti) z h = ground (arith, append-nil (first_queue p.queues), z.mode)
  move-OtherStep c p (pushing ti idx) z h = rw h (push-OtherStep ti p z)
  move-OtherStep c p pushed z h = ground (arith, append-nil (first_queue p.queues))
  move-OtherStep c p (looping id) z h = ground (arith, append-nil (first_queue p.queues))
  move-OtherStep c p (waiting id) z h = ground (arith, append-nil (first_queue p.queues))
  move-OtherStep c p (woken id) z h = take_own-OtherStep id p h z
  move-OtherStep c p (reporting id) z h = ground (arith, append-nil (first_queue p.queues))
  move-OtherStep c p leaving z h = ground (arith, append-nil (first_queue p.queues))
  move-OtherStep c p (crashed held) z h = ground (arith, append-nil (first_queue p.queues))
  move-OtherStep c p ended z h = ground (arith, append-nil (first_queue p.queues))
  move-OtherStep c p (missed id) z h = absurd h
  move-OtherStep c p (stealing id vic) z h = absurd h
  move-OtherStep c p (took id ti) z h = absurd h
  move-OtherStep c p (uncounted id ti) z h = absurd h
  move-OtherStep c p (calling id ti) z h = absurd h

  pub pushes-IsFirst : (p : Processor T) (pc : Pc T) → IsFirst pc → pushes p pc ≡ []
  pushes-IsFirst p (pushing ti idx) h = absurd h
  pushes-IsFirst p _ h = refl
