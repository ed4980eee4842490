-- ===== src/Pool/Teardown/Joined.antt =====
-- pool/task_multi_processor.h: the count of the running workers against the threads that the
-- destructor joins.
use mathlib.Core.Path.{subst}
use vectro.Common.{
  ℕ, zero, suc, ◌^◌, ◌≤◌, ◌<◌, ◌≡◌, refl, sym, ap, ◌∙◌, true, some, List, [], ◌∷◌, ◌++◌, length,
  replicate, total, arith,
}
use vectro.Pool.{TaskProcessorConfig, outside}
use vectro.Pool.System.{step, workers, start}
use vectro.Pool.Teardown.{
  counting, finished, Teardown, call_final, are_joined, proceed, Event, acts, sets_final, proceeds,
  advance, unwind, begin,
}
use vectro.Pool.Teardown.Live.{live, rest_live, joined-live}
use vectro.Pool.Teardown.Torn.{is_joined, calls, length_zero, IsTorn, unwind-IsTorn}

-- The workers are joined in this phase.
module _ (T : Type 0) where
  total-workers : (n id k : ℕ) → total live (workers {T = T} n id ++ replicate k outside) ≡ n
  total-workers zero id zero = refl
  total-workers zero id (suc k) = omega (arith, total-workers zero id k)
  total-workers (suc n) id k = omega (arith, total-workers n (suc id) k)

  rest-workers : (n id k : ℕ) → rest_live n (workers {T = T} n id ++ replicate k outside) ≡ 0
  rest-workers zero id zero = refl
  rest-workers zero id (suc k) = omega (arith, rest-workers zero id k)
  rest-workers (suc n) id k = rest-workers n (suc id) k

module _ {T : Type 0} where
  begin-IsTorn :
      (cfg : TaskProcessorConfig) (now k : ℕ)
      → cfg.num_threads < 2 ^ 64
      → IsTorn cfg.num_threads (begin {T = T} (start cfg now k))
  begin-IsTorn cfg now k small = record {
    few = small;
    counted = sym (total-workers T cfg.num_threads 0 k);
    bounded = omega arith;
    others = rest-workers T cfg.num_threads 0 k;
    joined = λ h. ground arith;
    once = omega arith;
  }

  -- The end of the destructor
  abbrev finish : Teardown T → Teardown T
  finish s = record s {
    system = record s.system { pool = record s.system.pool { stopped = true } };
    phase = finished;
    finals = s.finals ++ call_final s.final_callback;
  }

  proceed-finish :
      (n now : ℕ) (s : Teardown T)
      → s.system.pool.active_workers ≡ 0
      → proceed n now s counting ≡ finish s
  unfolding proceed
  proceed-finish n now s idle = ground (arith, idle)

  -- Once the final callback has been called nothing calls it again.
  unwind-finals :
      (n : ℕ) (s : Teardown T) (events : List (Event T))
      → s.phase ≡ finished
      → (unwind n s events).finals ≡ s.finals
  unfolding unwind advance proceed
  unwind-finals n s [] e = refl
  unwind-finals n s (acts a ∷ events) e =
      unwind-finals n (record s { system = step s.system a }) events e
  unwind-finals n s (sets_final cb ∷ events) e =
      unwind-finals n (record s { final_callback = some cb }) events e
  unwind-finals n s (proceeds now ∷ events) e =
      subst (λ s'. (unwind n s' events).finals ≡ s.finals) (sym (ap (λ ph. proceed n now s ph) e))
        (unwind-finals n s events e)

  -- With fewer than `2 ^ 64` workers, and any interleaving of the workers, the submitting threads and
  -- the destructor that brings the destructor behind its joins: every worker has ended and
  -- `active_workers_` is 0, so that the destructor's next step calls the final callback, if one is
  -- set, and nothing calls it again whatever follows.
  pub unwind-counting :
      (cfg : TaskProcessorConfig) (now k then_ : ℕ) (before later : List (Event T))
      → cfg.num_threads < 2 ^ 64
      → (unwind cfg.num_threads (begin (start cfg now k)) before).phase ≡ counting
      → (are_joined cfg.num_threads
            (unwind cfg.num_threads (begin (start cfg now k)) before).system.threads
          ≡ true)
        × ((unwind cfg.num_threads (begin (start cfg now k)) before).system.pool.active_workers ≡ 0)
        × ((unwind cfg.num_threads
              (unwind cfg.num_threads (begin (start cfg now k)) before)
              (proceeds then_ ∷ later)).finals
            ≡ call_final (unwind cfg.num_threads (begin (start cfg now k)) before).final_callback)
  unfolding unwind advance proceed
  unwind-counting cfg now k then_ before later small e =
      let n = cfg.num_threads in
      let s = unwind n (begin (start cfg now k)) before in
      let torn : IsTorn n s =
        unwind-IsTorn n before (begin (start cfg now k)) (begin-IsTorn cfg now k small) in
      let joined = torn.joined (ap is_joined e) in
      let idle : s.system.pool.active_workers ≡ 0 =
        omega (arith, torn.counted, torn.others, joined-live n s.system.threads joined) in
      let empty : s.finals ≡ [] =
        length_zero s.finals (subst (λ ph. length s.finals ≤ calls ph) e torn.once) in
      (
        joined,
        idle,
        subst (λ ph. (unwind n (proceed n then_ s ph) later).finals ≡ call_final s.final_callback)
            (sym e)
            (rw (proceed-finish n then_ s idle) (
              unwind-finals n (finish s) later refl
              ∙ ap (λ fs. fs ++ call_final s.final_callback) empty)),
      )
