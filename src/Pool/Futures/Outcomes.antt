-- ===== src/Pool/Futures/Outcomes.antt =====
-- pool/task_multi_processor.h: what `SubmitWithResult` leaves in its promise, in any interleaving.
use mathlib.Core.Path.{subst}
use vectro.Common.{
  ℕ, ◌+◌, ◌≤◌, ◌≡◌, ◌⊎◌, ◌∙◌, inl, inr, refl, sym, Bool, true, false, Option, none, some, List, [],
  ◌∷◌, ◌++◌, map, length, nat_beq_iff, Key, total, total-append, arith, Bool-cases, ap,
}
use vectro.Pool.{TaskProcessorConfig, TaskItem, Call}
use vectro.Pool.System.{Action, run, start}
use vectro.Pool.Tasks.{content, run_submitted, run_refused, run-content}
use vectro.Pool.OwnCalls.{own_calls, weight, total-own_calls}
use vectro.Pool.Futures.{
  Promise, unset, exception, canceled_before_enqueue, settle, is_set, submit_with_result, readings,
  promise, offered, is_named, IsOutcome, length-readings, is_foreign, other_than, total-readings,
  weight_foreign-le, promise_cases,
}

-- The task that `SubmitWithResult` submits.
abbrev with_wrapper : {T : Type 0} → ℕ → T → TaskItem T
with_wrapper p item = record { payload = item; wrappers = p ∷ [] }

submit_cases :
    {T R : Type 0} (p : ℕ) (before : Option Bool) (item : T)
    → ((is_set before ≡ true)
        × (submit_with_result {R = R} p before item ≡ (none, exception canceled_before_enqueue)))
      ⊎ ((is_set before ≡ false)
          × (submit_with_result {R = R} p before item ≡ (some (with_wrapper p item), unset)))
unfolding submit_with_result
submit_cases p before item = elim (Bool-cases (is_set before)) [
  | inl on ↦ inl (on, rw on refl)
  | inr off ↦ inr (off, rw off refl)
]

weight-with_wrapper :
    {T : Type 0} (p : ℕ) (item : T) → weight (is_named p) (with_wrapper p item) ≡ 1
weight-with_wrapper p item = ground (arith, nat_beq_iff p p)

foreign_with_wrapper :
    {T : Type 0} ⦃key : Key T⦄ (p : ℕ) (item : T)
    → weight (is_foreign p item) (with_wrapper p item) ≡ 0
foreign_with_wrapper ⦃key⦄ p item = ground (arith, nat_beq_iff p p, key.same_iff item item)

length-nil : {A : Type 0} {rs : List A} → length rs ≤ 0 → rs ≡ []
length-nil {rs = []} h = refl
length-nil {rs = x ∷ rs} h = absurd (omega (arith, h))

-- Of the calls of own callbacks there are no more than the submitted tasks ask for.
own_calls-le :
    {T : Type 0} (f : ℕ × T → ℕ) (cfg : TaskProcessorConfig) (now n : ℕ) (actions : List (Action T))
    → total f (own_calls (run (start cfg now n) actions).pool.calls)
      ≤ total (weight f) (run_submitted (start cfg now n) actions)
own_calls-le f cfg now n actions =
    omega (arith, run-content (weight f) cfg now n actions, total-own_calls f cfg now n actions)

total_middle :
    {T : Type 0} (f : TaskItem T → ℕ) (xs ts ys : List (TaskItem T))
    → total f (xs ++ ts ++ ys) ≡ total f xs + total f ts + total f ys
total_middle f xs ts ys = omega (arith, total-append f (xs ++ ts) ys, total-append f xs ts)

module _ {T : Type 0} ⦃key : Key T⦄ (cfg : TaskProcessorConfig) (now n : ℕ)
    (actions : List (Action T)) (p : ℕ) (item : T) (xs ts ys : List (TaskItem T))
    (log : List (Call T × Option Bool))
    (all : run_submitted (start cfg now n) actions ≡ xs ++ ts ++ ys)
    (before_it : total (weight (is_named p)) xs ≡ 0) (after_it : total (weight (is_named p)) ys ≡ 0)
    (calls : map (λ (c : Call T × Option Bool). c.0) log
      ≡ (run (start cfg now n) actions).pool.calls) where
  total_submitted :
      total (weight (is_named p)) (run_submitted (start cfg now n) actions)
      ≡ total (weight (is_named p)) ts
  total_submitted =
      ap (total (weight (is_named p))) all
      ∙ omega (arith, total_middle (weight (is_named p)) xs ts ys, before_it, after_it)

  length-readings-le : length (readings p log) ≤ total (weight (is_named p)) ts
  length-readings-le = omega (
    arith,
    length-readings p log,
    ap (λ cs. total (is_named p) (own_calls cs)) calls,
    own_calls-le (is_named p) cfg now n actions,
    total_submitted,
  )

  total-readings-le :
      total (other_than item) (readings p log) ≤ total (weight (is_foreign p item)) ts
  total-readings-le = omega (
    arith,
    total-readings p item log,
    ap (λ cs. total (is_foreign p item) (own_calls cs)) calls,
    own_calls-le (is_foreign p item) cfg now n actions,
    ap (total (weight (is_foreign p item))) all,
    total_middle (weight (is_foreign p item)) xs ts ys,
    weight_foreign-le p item xs,
    weight_foreign-le p item ys,
    before_it,
    after_it,
  )

-- Payloads can be compared, `SubmitWithResult` is called once with the promise `p`, and of the tasks
-- that are submitted in a run no other carries the wrapper `p`; `log` is what the run calls, with
-- what is read from the token at each of these calls. If the token was set before the submission,
-- nothing is submitted, the wrapper is not called, and the promise is canceled before enqueue. If
-- not, in any interleaving the wrapper is in exactly one of a queue, a thread's hands, the delivered
-- tasks and the refused ones; and either it has not been called and the promise is unset, or it has
-- been called once, on `item`, and the promise is canceled before execution where the token was set
-- then, and otherwise has what `fn item` throws or returns.
pub run-promise :
    {T R : Type 0} ⦃key : Key T⦄ (cfg : TaskProcessorConfig) (now n : ℕ) (actions : List (Action T))
    (p : ℕ) (before : Option Bool) (item : T) (fn : T → Option R) (xs ys : List (TaskItem T))
    (log : List (Call T × Option Bool))
    → run_submitted (start cfg now n) actions
      ≡ xs ++ offered (submit_with_result {R = R} p before item).0 ++ ys
    → total (weight (is_named p)) xs ≡ 0
    → total (weight (is_named p)) ys ≡ 0
    → map (λ (c : Call T × Option Bool). c.0) log ≡ (run (start cfg now n) actions).pool.calls
    → (let s = run (start cfg now n) actions in
        let q = settle (submit_with_result p before item).1 (promise fn (readings p log)) in
        ((is_set before ≡ true) × (readings p log ≡ []) × (q ≡ exception canceled_before_enqueue))
        ⊎ ((is_set before ≡ false)
            × (content (weight (is_named p)) s
                  + total (weight (is_named p)) (run_refused (start cfg now n) actions)
                ≡ 1)
            × (((readings p log ≡ []) × (q ≡ unset))
                ⊎ ((token : Option Bool) × (readings p log ≡ (item, token) ∷ [])
                    × IsOutcome fn token item q))))
run-promise {T} {R} cfg now n actions p before item fn xs ys log all hx hy calls =
    elim (submit_cases {T = T} {R = R} p before item) [
      | inl (on, e) ↦
          let few =
            length-readings-le cfg now n actions p item xs [] ys log
              (all ∙ ap (λ (r : Option (TaskItem T) × Promise R). xs ++ offered r.0 ++ ys) e) hx hy
              calls in
          inl (on, length-nil few, ap (λ r. settle r.1 (promise fn (readings p log))) e)
      | inr (off, e) ↦
          let given =
            all ∙ ap (λ (r : Option (TaskItem T) × Promise R). xs ++ offered r.0 ++ ys) e in
          let ts = offered (some (with_wrapper p item)) in
          inr (
            off,
            omega (
              arith,
              run-content (weight (is_named p)) cfg now n actions,
              total_submitted cfg now n actions p item xs ts ys log given hx hy calls,
              weight-with_wrapper p item,
            ),
            subst
                (λ q.
                  ((readings p log ≡ []) × (q ≡ unset))
                  ⊎ ((token : Option Bool) × (readings p log ≡ (item, token) ∷ [])
                      × IsOutcome {R = R} fn token item q))
                (ap (λ r. settle r.1 (promise fn (readings p log))) (sym e))
                (promise_cases fn item (readings p log)
                  (omega (
                    arith,
                    length-readings-le cfg now n actions p item xs ts ys log given hx hy calls,
                    weight-with_wrapper p item,
                  ))
                  (omega (
                    arith,
                    total-readings-le cfg now n actions p item xs ts ys log given hx hy calls,
                    foreign_with_wrapper p item,
                  ))),
          )
    ]
