-- ===== src/Log/Teardown/Choice.antt =====
-- log/log_adapter.h: whether the destructor joins the worker or detaches it.
use vectro.Common.{
  ℕ, ◌+◌, ◌≤◌, ◌<◌, ◌≡◌, ◌∙◌, refl, Bool, true, false, ◌⊎◌, List, [], ◌∷◌, All, get_elem?, arith,
  Option-cases, inl, inr,
}
use vectro.Log.{
  LogMessage, Writer, idle, sized, entering, Worker, at_loop, dispatching, reporting, draining,
  stopping, ended, crashed, LogAdapter, enqueue, process, Action, writes, works, registers, clears,
  limits, notifies_every, takes_dropped, stops, step,
}
use vectro.Log.Teardown.{
  Phase, alive, waiting, waited, joining, joined, detached, Teardown, begin, Event, acts,
  sets_shutdown_timeout, proceeds, proceed, advance, unwind,
}

-- `stopped_` is set only when the worker ends.
abbrev IsLast : LogAdapter → Type 0
IsLast s = (s.stopped ≡ false) ⊎ ((s.stopped ≡ true) × (s.worker ≡ ended))

enqueue-IsLast :
    (lm : LogMessage) (s : LogAdapter) (w : Writer) → IsLast s → IsLast (enqueue lm s w).0
unfolding enqueue
enqueue-IsLast lm s idle h = h
enqueue-IsLast _ s (sized lm sz) h = ground (arith, h)
enqueue-IsLast _ s (entering lm) h = ground (arith, h)

process-IsLast :
    (now : ℕ) (s : LogAdapter) (w : Worker) → s.worker ≡ w → IsLast s → IsLast (process now s w)
unfolding process
process-IsLast now s at_loop e h = ground (arith, e, h)
process-IsLast now s (dispatching final []) e h = ground (arith, e, h)
process-IsLast now s (dispatching final (lm ∷ rest)) e h = ground (arith, e, h)
process-IsLast now s (reporting final) e h = ground (arith, e, h)
process-IsLast now s draining e h = ground (arith, e, h)
process-IsLast now s stopping e h = inr (refl, refl)
process-IsLast now s ended e h = h
process-IsLast now s (crashed left) e h = h

step-IsLast : (s : LogAdapter) (a : Action) → IsLast s → IsLast (step s a)
unfolding step
step-IsLast s (writes place lm) h = elim (Option-cases (get_elem? s.writers place)) [
  | inl gone ↦ rw (gone, step) h
  | inr (w, e) ↦ rw (e, step) (enqueue-IsLast lm s w h)
]
step-IsLast s (works now) h = process-IsLast now s s.worker refl h
step-IsLast s (registers cb again) h = ground (arith, h)
step-IsLast s clears h = h
step-IsLast s (limits m) h = h
step-IsLast s (notifies_every interval) h = h
step-IsLast s takes_dropped h = h
step-IsLast s stops h = h

enqueue-stopped :
    (lm : LogMessage) (s : LogAdapter) (w : Writer) → (enqueue lm s w).0.stopped ≡ s.stopped
unfolding enqueue
enqueue-stopped lm s idle = refl
enqueue-stopped _ s (sized lm sz) = ground arith
enqueue-stopped _ s (entering lm) = ground arith

process-stopped :
    (now : ℕ) (s : LogAdapter) (w : Worker) → s.stopped ≡ true → (process now s w).stopped ≡ true
unfolding process
process-stopped now s at_loop h = ground (arith, h)
process-stopped now s (dispatching final []) h = ground (arith, h)
process-stopped now s (dispatching final (lm ∷ rest)) h = ground (arith, h)
process-stopped now s (reporting final) h = ground (arith, h)
process-stopped now s draining h = ground (arith, h)
process-stopped now s stopping h = refl
process-stopped now s ended h = h
process-stopped now s (crashed left) h = h

-- Nothing clears `stopped_`.
step-stopped : (s : LogAdapter) (a : Action) → s.stopped ≡ true → (step s a).stopped ≡ true
unfolding step
step-stopped s (writes place lm) h = elim (Option-cases (get_elem? s.writers place)) [
  | inl gone ↦ rw (gone, step) h
  | inr (w, e) ↦ rw (e, step) (enqueue-stopped lm s w ∙ h)
]
step-stopped s (works now) h = process-stopped now s s.worker h
step-stopped s (registers cb again) h = ground (arith, h)
step-stopped s clears h = h
step-stopped s (limits m) h = h
step-stopped s (notifies_every interval) h = h
step-stopped s takes_dropped h = h
step-stopped s stops h = h

-- The wait has ended, and not in a detachment.
abbrev pub is_joining : Phase → Bool
is_joining waited = true
is_joining joining = true
is_joining joined = true
is_joining _ = false

-- The timeout is not changed, and the destructor's steps come before the time `limit`.
abbrev InTime : ℕ → Event → Type 0
InTime limit (acts a) = Unit
InTime limit (sets_shutdown_timeout timeout) = ⊥
InTime limit (proceeds now) = now < limit

record IsFair (timeout begun : ℕ) (t : Teardown) : Type 0 where
  bound : t.shutdown_timeout ≡ timeout
  last : IsLast t.adapter
  clean : t.misused ≡ false
  place : (t.phase ≡ waiting begun) ⊎ ((t.adapter.stopped ≡ true) × (is_joining t.phase ≡ true))

proceed-IsFair :
    (timeout begun now : ℕ) (t : Teardown) (p : Phase)
    → t.phase ≡ p
    → now < begun + timeout
    → IsFair timeout begun t
    → IsFair timeout begun (proceed now t p)
unfolding proceed
proceed-IsFair timeout begun now t alive e lt i = ground (arith, e, i.place)
proceed-IsFair timeout begun now t (waiting b) e lt i =
    ground (arith, e, lt, i.bound, i.last, i.clean, i.place)
proceed-IsFair timeout begun now t waited e lt i =
    ground (arith, e, lt, i.bound, i.last, i.clean, i.place)
proceed-IsFair timeout begun now t joining e lt i =
    ground (arith, e, lt, i.bound, i.last, i.clean, i.place)
proceed-IsFair timeout begun now t joined e lt i = i
proceed-IsFair timeout begun now t detached e lt i = i

acts-IsFair :
    (timeout begun : ℕ) (t : Teardown) (a : Action)
    → IsFair timeout begun t
    → IsFair timeout begun (advance t (acts a))
unfolding advance
acts-IsFair timeout begun t a i = record {
  bound = i.bound;
  last = step-IsLast t.adapter a i.last;
  clean = ground (arith, i.clean, i.last, i.place);
  place = elim i.place [
    | inl w ↦ inl w
    | inr (stopped, past) ↦ inr (step-stopped t.adapter a stopped, past)
  ];
}

advance-IsFair :
    (timeout begun : ℕ) (t : Teardown) (e : Event)
    → InTime (begun + timeout) e
    → IsFair timeout begun t
    → IsFair timeout begun (advance t e)
unfolding advance
advance-IsFair timeout begun t (acts a) p i = acts-IsFair timeout begun t a i
advance-IsFair timeout begun t (sets_shutdown_timeout n) p i = absurd p
advance-IsFair timeout begun t (proceeds now) p i =
    proceed-IsFair timeout begun now t t.phase refl p i

unwind-IsFair :
    (timeout begun : ℕ) (t : Teardown) (events : List Event)
    → All (InTime (begun + timeout)) events
    → IsFair timeout begun t
    → IsFair timeout begun (unwind t events)
unfolding unwind
unwind-IsFair timeout begun t [] p i = i
unwind-IsFair timeout begun t (e ∷ events) p i =
    unwind-IsFair timeout begun (advance t e) events p.1 (advance-IsFair timeout begun t e p.0 i)

-- Two steps of the destructor from the phase `p` once the timeout has passed.
late-proceed :
    (timeout begun late later : ℕ) (t : Teardown) (p : Phase)
    → t.phase ≡ p
    → begun + timeout ≤ late
    → IsFair timeout begun t
    → (let u = advance (proceed late t p) (proceeds later) in
        ((t.phase ≡ waiting begun) × (t.adapter.stopped ≡ false) × (u.phase ≡ detached))
        ⊎ ((t.adapter.stopped ≡ true) × (t.adapter.worker ≡ ended) × (is_joining u.phase ≡ true)))
unfolding advance proceed
late-proceed timeout begun late later t alive e le i = ground (arith, e, le, i.place)
late-proceed timeout begun late later t (waiting b) e le i =
    ground (arith, e, le, i.bound, i.last, i.place)
late-proceed timeout begun late later t waited e le i =
    ground (arith, e, le, i.bound, i.last, i.place)
late-proceed timeout begun late later t joining e le i =
    ground (arith, e, le, i.bound, i.last, i.place)
late-proceed timeout begun late later t joined e le i =
    ground (arith, e, le, i.bound, i.last, i.place)
late-proceed timeout begun late later t detached e le i = ground (arith, e, le, i.place)

-- The destructor clears `running_` at the time `begun`, and then in any interleaving with the other
-- threads takes steps before the timeout has passed, and two more steps after that, with the timeout
-- not changed meanwhile. By the first of these two the worker has not used the logger after the
-- destructor's return. If the worker has not set `stopped_` by then, the destructor is still waiting,
-- and the two steps detach the worker; if it has, the worker has ended, and the destructor joins it or
-- has joined it.
pub unwind-choice :
    (timeout begun late later : ℕ) (s : LogAdapter) (events : List Event)
    → s.stopped ≡ false
    → All (InTime (begun + timeout)) events
    → begun + timeout ≤ late
    → (let t =
          unwind (advance (begin s) (sets_shutdown_timeout timeout)) (proceeds begun ∷ events) in
        let u = unwind t (proceeds late ∷ proceeds later ∷ []) in
        (t.misused ≡ false)
        × (((t.phase ≡ waiting begun) × (t.adapter.stopped ≡ false) × (u.phase ≡ detached))
            ⊎ ((t.adapter.stopped ≡ true)
                × (t.adapter.worker ≡ ended)
                × (is_joining u.phase ≡ true))))
unfolding unwind advance proceed step
unwind-choice timeout begun late later s events h p le =
    let start : Teardown = record {
      adapter = record s { running = false };
      shutdown_timeout = timeout;
      phase = waiting begun;
      misused = false;
    } in
    let fair =
      unwind-IsFair timeout begun start events p
        (record { bound = refl; last = inl h; clean = refl; place = inl refl }) in
    let t = unwind start events in
    (fair.clean, late-proceed timeout begun late later t t.phase refl le fair)
