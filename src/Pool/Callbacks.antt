-- ===== src/Pool/Callbacks.antt =====
-- pool/task_multi_processor.h: which callbacks a delivered task is given to.
use mathlib.Core.List.{append_assoc, append-nil}
use vectro.Common.{
  ℕ, ◌≡◌, ◌∙◌, refl, sym, ap, List, [], ◌∷◌, ◌++◌, map, get_elem?, arith, Option-cases, inl, inr,
  All, total,
}
use vectro.Pool.{
  TaskProcessorConfig, TaskItem, Processor, Call, registered, wrapped, call_all, Pc, outside,
  loaded, placing, pushing, pushed, looping, waiting, woken, missed, stealing, took, uncounted,
  calling, reporting, leaving, crashed, ended,
}
use vectro.Pool.System.{
  Choice, submits, goes, System, Action, moves, stops, reconfigures, takes_dropped, registers,
  sets_affinity, move, step, run, start,
}
use vectro.Pool.OwnCalls.{own_calls, own_of, run-own_calls}

module _ {T : Type 0} where
  -- No callback is registered any more.
  abbrev RegistersNone : Action T → Type 0
  RegistersNone (registers cb) = ⊥
  RegistersNone _ = Unit

  -- Each of the tasks in order is given to the callbacks `cbs`, and then to its own.
  abbrev all_calls : List ℕ → List (TaskItem T) → List (Call T)
  all_calls cbs [] = []
  all_calls cbs (ti ∷ tis) = call_all cbs ti ++ all_calls cbs tis

  all_calls-append :
      (cbs : List ℕ) (xs ys : List (TaskItem T))
      → all_calls cbs (xs ++ ys) ≡ all_calls cbs xs ++ all_calls cbs ys
  all_calls-append cbs [] ys = refl
  all_calls-append cbs (ti ∷ xs) ys =
      ap (λ zs. call_all cbs ti ++ zs) (all_calls-append cbs xs ys)
      ∙ sym (append_assoc (call_all cbs ti) (all_calls cbs xs) (all_calls cbs ys))

  record IsCalled (cbs : List ℕ) (p : Processor T) : Type 0 where
    globals : p.global_callbacks ≡ cbs
    whole : p.calls ≡ all_calls cbs p.delivered

  move-IsCalled :
      (cbs : List ℕ) (c : Choice T) (p : Processor T) (pc : Pc T)
      → IsCalled cbs p
      → IsCalled cbs (move c p pc).0
  unfolding move
  move-IsCalled cbs (submits ti) p outside i = i
  move-IsCalled cbs (goes now) p outside i = i
  move-IsCalled cbs c p (loaded ti curr) i = ground (arith, i)
  move-IsCalled cbs c p (placing ti) i = ground (arith, i)
  move-IsCalled cbs c p (pushing ti idx) i = ground (arith, i)
  move-IsCalled cbs c p pushed i = ground (arith, i)
  move-IsCalled cbs c p (looping id) i = i
  move-IsCalled cbs c p (waiting id) i = i
  move-IsCalled cbs c p (woken id) i = ground (arith, i)
  move-IsCalled cbs c p (missed id) i = i
  move-IsCalled cbs c p (stealing id vic) i = ground (arith, i)
  move-IsCalled cbs c p (took id ti) i = ground (arith, i)
  move-IsCalled cbs c p (uncounted id ti) i = ground (arith, i)
  move-IsCalled cbs c p (calling id ti) i = record {
    globals = i.globals;
    whole =
        ap (λ xs. xs ++ call_all p.global_callbacks ti) i.whole
        ∙ ap (λ gs. all_calls cbs p.delivered ++ call_all gs ti) i.globals
        ∙ ap (λ xs. all_calls cbs p.delivered ++ xs) (sym (append-nil (call_all cbs ti)))
        ∙ sym (all_calls-append cbs p.delivered (ti ∷ []));
  }
  move-IsCalled cbs c p (reporting id) i = ground (arith, i)
  move-IsCalled cbs c p leaving i = ground (arith, i)
  move-IsCalled cbs c p (crashed held) i = i
  move-IsCalled cbs c p ended i = i

  step-IsCalled :
      (cbs : List ℕ) (s : System T) (a : Action T)
      → RegistersNone a
      → IsCalled cbs s.pool
      → IsCalled cbs (step s a).pool
  unfolding step
  step-IsCalled cbs s (moves place c) q i = elim (Option-cases (get_elem? s.threads place)) [
    | inl gone ↦ rw (gone, step) i
    | inr (pc, e) ↦
        let next = move-IsCalled cbs c s.pool pc i in
        rw (e, step) (record { globals = next.globals; whole = next.whole })
  ]
  step-IsCalled cbs s stops q i = record { globals = i.globals; whole = i.whole }
  step-IsCalled cbs s (reconfigures cfg) q i = record { globals = i.globals; whole = i.whole }
  step-IsCalled cbs s takes_dropped q i = record { globals = i.globals; whole = i.whole }
  step-IsCalled cbs s (registers cb) q i = absurd q
  step-IsCalled cbs s (sets_affinity fn) q i = record { globals = i.globals; whole = i.whole }

  run-IsCalled :
      (cbs : List ℕ) (s : System T) (actions : List (Action T))
      → All RegistersNone actions
      → IsCalled cbs s.pool
      → IsCalled cbs (run s actions).pool
  unfolding run
  run-IsCalled cbs s [] q i = i
  run-IsCalled cbs s (a ∷ actions) q i =
      run-IsCalled cbs (step s a) actions q.1 (step-IsCalled cbs s a q.0 i)

  -- Callbacks registered one after another.
  abbrev pub register_all : List ℕ → List (Action T)
  register_all [] = []
  register_all (cb ∷ cbs) = registers cb ∷ register_all cbs

  run_registered :
      (cbs old : List ℕ) (s : System T) (actions : List (Action T))
      → All RegistersNone actions
      → s.pool.delivered ≡ []
      → s.pool.calls ≡ []
      → s.pool.global_callbacks ≡ old
      → IsCalled (old ++ cbs) (run s (register_all cbs ++ actions)).pool
  unfolding run step
  run_registered [] old s actions q d c g =
      run-IsCalled (old ++ []) s actions q
        (record { globals = g ∙ sym (append-nil old); whole = cc (d, c) })
  run_registered (cb ∷ cbs) old s actions q d c g = rw (← append_assoc old (cb ∷ []) cbs) (
      run_registered cbs (old ++ cb ∷ []) (step s (registers cb)) actions q d c
        (ap (λ gs. gs ++ cb ∷ []) g))

module _ {T : Type 0} where
  -- The calls of registered callbacks, which the lock `cb_mu_` orders.
  abbrev pub under_lock : List (Call T) → List (ℕ × T)
  under_lock [] = []
  under_lock (registered cb t ∷ calls) = (cb, t) ∷ under_lock calls
  under_lock (wrapped w t ∷ calls) = under_lock calls

  -- The callbacks `cbs` for each of the tasks in order.
  abbrev pub one_by_one : List ℕ → List (TaskItem T) → List (ℕ × T)
  one_by_one cbs [] = []
  one_by_one cbs (ti ∷ tis) = map (λ cb. (cb, ti.payload)) cbs ++ one_by_one cbs tis

  under_lock-append :
      (xs ys : List (Call T)) → under_lock (xs ++ ys) ≡ under_lock xs ++ under_lock ys
  under_lock-append [] ys = refl
  under_lock-append (registered cb t ∷ xs) ys = rw (under_lock-append xs ys) refl
  under_lock-append (wrapped w t ∷ xs) ys = under_lock-append xs ys

  under_lock_registered :
      (t : T) (cbs : List ℕ) → under_lock (map (λ g. registered g t) cbs) ≡ map (λ cb. (cb, t)) cbs
  under_lock_registered t [] = refl
  under_lock_registered t (cb ∷ cbs) = rw (under_lock_registered t cbs) refl

  under_lock_wrapped : (t : T) (ws : List ℕ) → under_lock (map (λ w. wrapped w t) ws) ≡ []
  under_lock_wrapped t [] = refl
  under_lock_wrapped t (w ∷ ws) = under_lock_wrapped t ws

  under_lock-call_all :
      (cbs : List ℕ) (ti : TaskItem T)
      → under_lock (call_all cbs ti) ≡ map (λ cb. (cb, ti.payload)) cbs
  under_lock-call_all cbs ti =
      under_lock-append (map (λ g. registered g ti.payload) cbs)
        (map (λ w. wrapped w ti.payload) ti.wrappers)
      ∙ ap (λ xs. xs ++ under_lock (map (λ w. wrapped w ti.payload) ti.wrappers))
          (under_lock_registered ti.payload cbs)
      ∙ ap (λ xs. map (λ cb. (cb, ti.payload)) cbs ++ xs)
          (under_lock_wrapped ti.payload ti.wrappers)
      ∙ append-nil (map (λ cb. (cb, ti.payload)) cbs)

  under_lock-all_calls :
      (cbs : List ℕ) (tis : List (TaskItem T)) → under_lock (all_calls cbs tis) ≡ one_by_one cbs tis
  under_lock-all_calls cbs [] = refl
  under_lock-all_calls cbs (ti ∷ tis) =
      under_lock-append (call_all cbs ti) (all_calls cbs tis)
      ∙ ap (λ xs. xs ++ under_lock (all_calls cbs tis)) (under_lock-call_all cbs ti)
      ∙ ap (λ xs. map (λ cb. (cb, ti.payload)) cbs ++ xs) (under_lock-all_calls cbs tis)

-- Where the callbacks `cbs` are registered first and no other later, in any interleaving: the calls of
-- registered callbacks are those of `cbs`, in order, for each delivered task in turn; and each own
-- callback of each delivered task is called with the payload of that task, as many times as it stands
-- there, whatever the order of these calls.
pub run-calls :
    {T : Type 0} (cfg : TaskProcessorConfig) (now k : ℕ) (cbs : List ℕ) (actions : List (Action T))
    → All RegistersNone actions
    → (let s = run (start cfg now k) (register_all cbs ++ actions) in
        (under_lock s.pool.calls ≡ one_by_one cbs s.pool.delivered)
        × ((f : ℕ × T → ℕ) → total f (own_calls s.pool.calls) ≡ total f (own_of s.pool.delivered)))
run-calls cfg now k cbs actions q =
    let s = run (start cfg now k) (register_all cbs ++ actions) in
    let whole = (run_registered cbs [] (start cfg now k) actions q refl refl refl).whole in
    (
      ap under_lock whole ∙ under_lock-all_calls cbs s.pool.delivered,
      λ f. ap (total f) (run-own_calls cfg now k (register_all cbs ++ actions)),
    )
