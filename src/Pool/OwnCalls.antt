-- ===== src/Pool/OwnCalls.antt =====
-- pool/task_multi_processor.h: the calls of the callbacks that tasks carry themselves, `ti.wrappers`.
use mathlib.Core.List.{append_assoc, append-nil}
use vectro.Common.{
  ℕ, ◌≡◌, ◌∙◌, refl, sym, ap, List, [], ◌∷◌, ◌++◌, map, get_elem?, arith, Option-cases, inl, inr,
  total, total-append,
}
use vectro.Pool.{
  TaskProcessorConfig, TaskItem, Processor, Call, registered, wrapped, call_all, Pc, outside,
  loaded, placing, pushing, pushed, looping, waiting, woken, missed, stealing, took, uncounted,
  calling, reporting, leaving, crashed, ended,
}
use vectro.Pool.System.{
  Choice, submits, goes, System, Action, moves, stops, reconfigures, takes_dropped, registers,
  sets_affinity, move, step, run, start,
}
use vectro.Pool.Tasks.{held}

module _ {T : Type 0} where
  -- The calls of the tasks' own callbacks, made without a lock.
  abbrev pub own_calls : List (Call T) → List (ℕ × T)
  own_calls [] = []
  own_calls (registered cb t ∷ calls) = own_calls calls
  own_calls (wrapped w t ∷ calls) = (w, t) ∷ own_calls calls

  -- Each of the own callbacks of each of the tasks.
  abbrev pub own_of : List (TaskItem T) → List (ℕ × T)
  own_of [] = []
  own_of (ti ∷ tis) = map (λ w. (w, ti.payload)) ti.wrappers ++ own_of tis

  own_calls-append : (xs ys : List (Call T)) → own_calls (xs ++ ys) ≡ own_calls xs ++ own_calls ys
  own_calls-append [] ys = refl
  own_calls-append (registered cb t ∷ xs) ys = own_calls-append xs ys
  own_calls-append (wrapped w t ∷ xs) ys = rw (own_calls-append xs ys) refl

  own_calls_wrapped :
      (t : T) (ws : List ℕ) → own_calls (map (λ w. wrapped w t) ws) ≡ map (λ w. (w, t)) ws
  own_calls_wrapped t [] = refl
  own_calls_wrapped t (w ∷ ws) = rw (own_calls_wrapped t ws) refl

  own_calls_registered : (t : T) (cbs : List ℕ) → own_calls (map (λ g. registered g t) cbs) ≡ []
  own_calls_registered t [] = refl
  own_calls_registered t (cb ∷ cbs) = own_calls_registered t cbs

  own_calls-call_all :
      (cbs : List ℕ) (ti : TaskItem T)
      → own_calls (call_all cbs ti) ≡ map (λ w. (w, ti.payload)) ti.wrappers
  own_calls-call_all cbs ti =
      own_calls-append (map (λ g. registered g ti.payload) cbs)
        (map (λ w. wrapped w ti.payload) ti.wrappers)
      ∙ ap (λ xs. xs ++ own_calls (map (λ w. wrapped w ti.payload) ti.wrappers))
          (own_calls_registered ti.payload cbs)
      ∙ own_calls_wrapped ti.payload ti.wrappers

  own_of-append : (xs ys : List (TaskItem T)) → own_of (xs ++ ys) ≡ own_of xs ++ own_of ys
  own_of-append [] ys = refl
  own_of-append (ti ∷ xs) ys =
      ap (λ zs. map (λ w. (w, ti.payload)) ti.wrappers ++ zs) (own_of-append xs ys)
      ∙ sym (append_assoc (map (λ w. (w, ti.payload)) ti.wrappers) (own_of xs) (own_of ys))

  abbrev AreCalled : Processor T → Type 0
  AreCalled p = own_calls p.calls ≡ own_of p.delivered

  move-AreCalled :
      (c : Choice T) (p : Processor T) (pc : Pc T) → AreCalled p → AreCalled (move c p pc).0
  unfolding move
  move-AreCalled (submits ti) p outside i = i
  move-AreCalled (goes now) p outside i = i
  move-AreCalled c p (loaded ti curr) i = ground (arith, i)
  move-AreCalled c p (placing ti) i = ground (arith, i)
  move-AreCalled c p (pushing ti idx) i = ground (arith, i)
  move-AreCalled c p pushed i = ground (arith, i)
  move-AreCalled c p (looping id) i = i
  move-AreCalled c p (waiting id) i = i
  move-AreCalled c p (woken id) i = ground (arith, i)
  move-AreCalled c p (missed id) i = i
  move-AreCalled c p (stealing id vic) i = ground (arith, i)
  move-AreCalled c p (took id ti) i = ground (arith, i)
  move-AreCalled c p (uncounted id ti) i = ground (arith, i)
  move-AreCalled c p (calling id ti) i =
      own_calls-append p.calls (call_all p.global_callbacks ti)
      ∙ ap (λ xs. xs ++ own_calls (call_all p.global_callbacks ti)) i
      ∙ ap (λ xs. own_of p.delivered ++ xs) (own_calls-call_all p.global_callbacks ti)
      ∙ ap (λ xs. own_of p.delivered ++ xs)
          (sym (append-nil (map (λ w. (w, ti.payload)) ti.wrappers)))
      ∙ sym (own_of-append p.delivered (ti ∷ []))
  move-AreCalled c p (reporting id) i = ground (arith, i)
  move-AreCalled c p leaving i = ground (arith, i)
  move-AreCalled c p (crashed held) i = i
  move-AreCalled c p ended i = i

  step-AreCalled : (s : System T) (a : Action T) → AreCalled s.pool → AreCalled (step s a).pool
  unfolding step
  step-AreCalled s (moves place c) i = elim (Option-cases (get_elem? s.threads place)) [
    | inl gone ↦ rw (gone, step) i
    | inr (pc, e) ↦ rw (e, step) (move-AreCalled c s.pool pc i)
  ]
  step-AreCalled s stops i = i
  step-AreCalled s (reconfigures cfg) i = i
  step-AreCalled s takes_dropped i = i
  step-AreCalled s (registers cb) i = i
  step-AreCalled s (sets_affinity fn) i = i

  run-AreCalled :
      (s : System T) (actions : List (Action T)) → AreCalled s.pool → AreCalled (run s actions).pool
  unfolding run
  run-AreCalled s [] i = i
  run-AreCalled s (a ∷ actions) i = run-AreCalled (step s a) actions (step-AreCalled s a i)

  -- A weight of a task's own callbacks.
  abbrev pub weight : (ℕ × T → ℕ) → TaskItem T → ℕ
  weight f ti = total f (map (λ w. (w, ti.payload)) ti.wrappers)

  total-own_of :
      (f : ℕ × T → ℕ) (tis : List (TaskItem T)) → total f (own_of tis) ≡ total (weight f) tis
  total-own_of f [] = refl
  total-own_of f (ti ∷ tis) = omega (
    arith,
    total-append f (map (λ w. (w, ti.payload)) ti.wrappers) (own_of tis),
    total-own_of f tis,
  )

-- In any run the calls of own callbacks are those of the delivered tasks.
pub run-own_calls :
    {T : Type 0} (cfg : TaskProcessorConfig) (now n : ℕ) (actions : List (Action T))
    → (let s = run (start cfg now n) actions in own_calls s.pool.calls ≡ own_of s.pool.delivered)
run-own_calls cfg now n actions = run-AreCalled (start cfg now n) actions refl

-- The weight of these calls is that of the delivered tasks.
pub total-own_calls :
    {T : Type 0} (f : ℕ × T → ℕ) (cfg : TaskProcessorConfig) (now n : ℕ) (actions : List (Action T))
    → (let s = run (start cfg now n) actions in
        total f (own_calls s.pool.calls) ≡ total (weight f) s.pool.delivered)
total-own_calls f cfg now n actions =
    let s = run (start cfg now n) actions in
    ap (total f) (run-own_calls cfg now n actions) ∙ total-own_of f s.pool.delivered
