-- ===== src/Pool/Futures.antt =====
-- pool/task_multi_processor.h: the ways to submit a task, and the futures that two of them return. A
-- promise is named by a number, which stands among the wrappers of its task. A cancellation token is
-- the value that is read from it, with `none` for a null pointer; `fn` answers `none` where the
-- function of the task throws.
pub mod Outcomes
use mathlib.Core.Path.{subst}
use vectro.Common.{
  ◌||◌, Option-cases, ℕ, ◌+◌, ◌≤◌, ◌≡◌, ◌⊎◌, ◌∙◌, inl, inr, refl, sym, Bool, true, false, Option,
  none, some, List, [], ◌∷◌, ◌++◌, map, length, leb, nat_beq, nat_beq_iff, if◌then◌else◌, Key, ◌==◌,
  total, total-append, arith, Bool-cases, ap,
}
use vectro.Pool.{TaskProcessorConfig, TaskItem, Call, registered, wrapped}
use vectro.Pool.System.{Action, run, start}
use vectro.Pool.Tasks.{content, run_submitted, run_refused, run-content}
use vectro.Pool.OwnCalls.{own_calls, weight, total-own_calls}

pub data Error : Type 0 where
  canceled_before_enqueue canceled_before_execution thrown : Error

-- The state of a promise.
pub data Promise (R : Type 0) : Type 0 where
  unset : Promise R
  value : R → Promise R
  exception : Error → Promise R

-- `set_value` and `set_exception`: a second call throws, and the wrapper's handler swallows that.
abbrev pub settle : {R : Type 0} → Promise R → Promise R → Promise R
settle unset p = p
settle (value r) p = value r
settle (exception e) p = exception e

abbrev pub is_set : Option Bool → Bool
is_set none = false
is_set (some b) = b

module _ {T : Type 0} where
  -- `Submit`
  abbrev pub submit : T → TaskItem T
  submit item = record { payload = item; wrappers = [] }

  -- `SubmitWithTimeout` at the time `now`: `none` where it returns false.
  unfoldable submit_with_timeout : (now deadline : ℕ) → Option Bool → T → Option (TaskItem T)
  submit_with_timeout now deadline token item =
      if is_set token || leb deadline now then none else some (submit item)

  -- `SubmitWithResult` with the promise `p`: what it submits, and the promise that it leaves.
  unfoldable pub submit_with_result :
      {R : Type 0} → ℕ → Option Bool → T → Option (TaskItem T) × Promise R
  submit_with_result p token item =
      if is_set token
      then (none, exception canceled_before_enqueue)
      else (some (record { payload = item; wrappers = p ∷ [] }), unset)

  -- The wrapper, with the token as it is read then.
  abbrev pub wrapper : {R : Type 0} → (T → Option R) → Option Bool → T → Promise R
  wrapper fn token t =
      if is_set token
      then exception canceled_before_execution
      else elim (fn t) [ none ↦ exception thrown | some r ↦ value r ]

  -- The calls of the wrapper `p` in a run's calls of callbacks, with the token as it is then.
  abbrev pub readings : ℕ → List (Call T × Option Bool) → List (T × Option Bool)
  readings p [] = []
  readings p ((registered cb t, token) ∷ log) = readings p log
  readings p ((wrapped w t, token) ∷ log) =
      if nat_beq w p then (t, token) ∷ readings p log else readings p log

  -- The promise after these calls of its wrapper.
  unfoldable pub promise : {R : Type 0} → (T → Option R) → List (T × Option Bool) → Promise R
  promise fn [] = unset
  promise fn ((t, token) ∷ rest) = settle (wrapper fn token t) (promise fn rest)

  -- The tasks that `SubmitWithResult` submits.
  abbrev pub offered : Option (TaskItem T) → List (TaskItem T)
  offered none = []
  offered (some ti) = ti ∷ []

  -- A callback that is the wrapper `p`.
  abbrev pub is_named : ℕ → ℕ × T → ℕ
  is_named p (w, t) = if nat_beq w p then 1 else 0

  -- What a call of the wrapper on `item` does to a promise.
  abbrev pub IsOutcome : {R : Type 0} → (T → Option R) → Option Bool → T → Promise R → Type 0
  IsOutcome {R} fn token item q =
      ((is_set token ≡ true) × (q ≡ exception canceled_before_execution))
      ⊎ ((is_set token ≡ false) × (fn item ≡ none) × (q ≡ exception thrown))
      ⊎ ((r : R) × (is_set token ≡ false) × (fn item ≡ some r) × (q ≡ value r))

  wrapper-IsOutcome :
      {R : Type 0} (fn : T → Option R) (token : Option Bool) (item : T)
      → IsOutcome fn token item (wrapper fn token item)
  wrapper-IsOutcome fn token item = elim (Bool-cases (is_set token)) [
    | inl off ↦ inl (off, rw off refl)
    | inr on ↦ elim (Option-cases (fn item)) [
      | inl throws ↦ inr (inl (on, throws, rw (on, throws) refl))
      | inr (r, e) ↦ inr (inr (r, on, e, rw (on, e) refl))
    ]
  ]

  settle-wrapper :
      {R : Type 0} (fn : T → Option R) (token : Option Bool) (t : T)
      → settle (wrapper fn token t) unset ≡ wrapper fn token t
  settle-wrapper fn token t = ground arith

  pub length-readings :
      (p : ℕ) (log : List (Call T × Option Bool))
      → length (readings p log)
        ≡ total (is_named p) (own_calls (map (λ (c : Call T × Option Bool). c.0) log))
  length-readings p [] = refl
  length-readings p ((registered cb t, token) ∷ log) = length-readings p log
  length-readings p ((wrapped w t, token) ∷ log) = ground (arith, length-readings p log)

  module _ ⦃key : Key T⦄ where
    -- A call of the wrapper on something else than `item`.
    abbrev pub is_foreign : ℕ → T → ℕ × T → ℕ
    is_foreign p item (w, t) = if nat_beq w p then (if t == item then 0 else 1) else 0

    abbrev pub other_than : T → T × Option Bool → ℕ
    other_than item (t, token) = if t == item then 0 else 1

    pub total-readings :
        (p : ℕ) (item : T) (log : List (Call T × Option Bool))
        → total (other_than item) (readings p log)
          ≡ total (is_foreign p item) (own_calls (map (λ (c : Call T × Option Bool). c.0) log))
    total-readings p item [] = refl
    total-readings p item ((registered cb t, token) ∷ log) = total-readings p item log
    total-readings p item ((wrapped w t, token) ∷ log) = ground (arith, total-readings p item log)

    total_foreign-le :
        (p : ℕ) (item : T) (calls : List (ℕ × T))
        → total (is_foreign p item) calls ≤ total (is_named p) calls
    total_foreign-le p item [] = omega arith
    total_foreign-le p item ((w, t) ∷ calls) = ground (arith, total_foreign-le p item calls)

    pub weight_foreign-le :
        (p : ℕ) (item : T) (tis : List (TaskItem T))
        → total (weight (is_foreign p item)) tis ≤ total (weight (is_named p)) tis
    weight_foreign-le p item [] = omega arith
    weight_foreign-le p item (ti ∷ tis) = omega (
      arith,
      total_foreign-le p item (map (λ w. (w, ti.payload)) ti.wrappers),
      weight_foreign-le p item tis,
    )

    -- A wrapper that is called at most once, and on `item` only.
    pub promise_cases :
        {R : Type 0} (fn : T → Option R) (item : T) (rs : List (T × Option Bool))
        → length rs ≤ 1
        → total (other_than item) rs ≡ 0
        → ((rs ≡ []) × (promise fn rs ≡ unset))
          ⊎ ((token : Option Bool) × (rs ≡ (item, token) ∷ [])
              × IsOutcome fn token item (promise fn rs))
    unfolding promise
    promise_cases fn item [] le h = inl (refl, refl)
    promise_cases {R} fn item ((t, token) ∷ []) le h =
        let same : t ≡ item = ground (arith, h, key.same_iff t item) in
        inr (
          token,
          ap (λ x. (x, token) ∷ []) same,
          subst (λ x. IsOutcome {R = R} fn token item (settle (wrapper fn token x) unset))
              (sym same)
              (subst (λ q. IsOutcome {R = R} fn token item q) (sym (settle-wrapper fn token item))
                (wrapper-IsOutcome fn token item)),
        )
    promise_cases fn item (r1 ∷ r2 ∷ rs) le h = absurd (omega (arith, le))
