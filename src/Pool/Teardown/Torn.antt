-- ===== src/Pool/Teardown/Torn.antt =====
-- pool/task_multi_processor.h: what holds of the destructor and the threads after each of their steps.
use mathlib.Core.Path.{subst}
use vectro.Common.{
  ℕ, ◌+◌, ◌^◌, ◌≤◌, ◌<◌, ◌≡◌, refl, ap, ◌∙◌, Bool, true, false, ◌&&◌, Option, none, some, List, [],
  ◌∷◌, ltb, length, length-append, get_elem?, total, total-set_at, arith, Option-cases, Bool-cases,
  inl, inr,
}
use vectro.Pool.{Processor}
use vectro.Pool.System.{
  Action, moves, stops, reconfigures, takes_dropped, registers, sets_affinity, get_dropped_count,
  register_callback, set_thread_affinity, move, step,
}
use vectro.Pool.Teardown.{
  Phase, alive, draining, joining, counting, finished, Teardown, call_final, are_joined, proceed,
  Event, acts, sets_final, proceeds, advance, unwind,
}
use vectro.Pool.Teardown.Live.{
  live, move-KeepsActive, set-are_joined, rest_live, set-rest_live, live_at,
}

abbrev pub is_joined : Phase → Bool
is_joined counting = true
is_joined finished = true
is_joined _ = false

abbrev pub calls : Phase → ℕ
calls finished = 1
calls _ = 0

length-call_final : (cb : Option ℕ) → length (call_final cb) ≤ 1
length-call_final none = omega arith
length-call_final (some cb) = omega arith

pub length_zero : {A : Type 0} (xs : List A) → length xs ≤ 0 → xs ≡ []
length_zero [] le = refl
length_zero (x ∷ xs) le = ground arith

module _ {T : Type 0} where
  pub record IsTorn (n : ℕ) (s : Teardown T) : Type 0 where
    pub few : n < 2 ^ 64
    pub counted : s.system.pool.active_workers ≡ total live s.system.threads
    pub bounded : s.system.pool.active_workers ≤ n
    pub others : rest_live n s.system.threads ≡ 0
    pub joined : is_joined s.phase ≡ true → are_joined n s.system.threads ≡ true
    pub once : length s.finals ≤ calls s.phase

  -- What leaves the count and the threads as they are.
  same-IsTorn :
      (n : ℕ) (s : Teardown T) (p : Processor T)
      → p.active_workers ≡ s.system.pool.active_workers
      → IsTorn n s
      → IsTorn n (record s { system = record s.system { pool = p } })
  same-IsTorn n s p e torn = record {
    few = torn.few;
    counted = e ∙ torn.counted;
    bounded = omega (arith, e, torn.bounded);
    others = torn.others;
    joined = torn.joined;
    once = torn.once;
  }

  step-IsTorn :
      (n : ℕ) (s : Teardown T) (a : Action T)
      → IsTorn n s
      → IsTorn n (record s { system = step s.system a })
  unfolding step
  step-IsTorn n s stops torn = same-IsTorn n s (record s.system.pool { running = false }) refl torn
  step-IsTorn n s (reconfigures cfg) torn =
      same-IsTorn n s (record s.system.pool { cfg = cfg }) refl torn
  step-IsTorn n s takes_dropped torn = same-IsTorn n s (get_dropped_count s.system.pool) refl torn
  step-IsTorn n s (registers cb) torn =
      same-IsTorn n s (register_callback cb s.system.pool) refl torn
  step-IsTorn n s (sets_affinity fn) torn =
      same-IsTorn n s (set_thread_affinity fn s.system.pool) refl torn
  step-IsTorn n s (moves i c) torn = elim (Option-cases (get_elem? s.system.threads i)) [
    | inl out ↦ rw (out, step) torn
    | inr (pc, e) ↦
        let le : live pc ≤ total live s.system.threads = live_at s.system.threads i pc e in
        let keeps =
          move-KeepsActive c s.system.pool pc (omega (arith, torn.counted, le))
            (omega (arith, torn.few, torn.bounded)) in
        rw (e, step)
          (record {
            few = torn.few;
            counted = omega (
              arith,
              keeps.0,
              torn.counted,
              total-set_at live s.system.threads i pc (move c s.system.pool pc).1 e,
            );
            bounded = omega (arith, keeps, torn.bounded);
            others = omega (
              arith,
              torn.others,
              set-rest_live n s.system.threads i pc (move c s.system.pool pc).1 e keeps.1,
            );
            joined = λ h. set-are_joined n s.system.threads i pc c s.system.pool e (torn.joined h);
            once = torn.once;
          })
  ]

  -- The next phase holds no workers joined that are not.
  into-IsTorn :
      (n : ℕ) (s : Teardown T) (ph : Phase)
      → (is_joined ph ≡ true → are_joined n s.system.threads ≡ true)
      → length s.finals ≤ calls ph
      → IsTorn n s
      → IsTorn n (record s { phase = ph })
  into-IsTorn n s ph all le torn = record {
    few = torn.few;
    counted = torn.counted;
    bounded = torn.bounded;
    others = torn.others;
    joined = all;
    once = le;
  }

  proceed-IsTorn :
      (n now : ℕ) (s : Teardown T) (ph : Phase)
      → s.phase ≡ ph
      → IsTorn n s
      → IsTorn n (proceed n now s ph)
  unfolding proceed step
  proceed-IsTorn n now s alive e torn = record {
    few = torn.few;
    counted = torn.counted;
    bounded = torn.bounded;
    others = torn.others;
    joined = λ h. ground arith;
    once = subst (λ ph. length s.finals ≤ calls ph) e torn.once;
  }
  proceed-IsTorn n now s (draining begun) e torn =
      elim (Bool-cases (
        s.system.pool.cfg.enable_drain_on_shutdown
        && (ltb 0 s.system.pool.tasks_in_queue
            && ltb now (begun + s.system.pool.cfg.shutdown_timeout)))) [
              | inl on ↦ rw (on, proceed) torn
              | inr off ↦
                  rw (off, proceed)
                    (into-IsTorn n s joining (λ h. ground arith)
                      (subst (λ ph. length s.finals ≤ calls ph) e torn.once) torn)
            ]
  proceed-IsTorn n now s joining e torn = elim (Bool-cases (are_joined n s.system.threads)) [
    | inl on ↦
        rw (on, proceed)
          (into-IsTorn n s counting (λ h. on) (subst (λ ph. length s.finals ≤ calls ph) e torn.once)
            torn)
    | inr off ↦ rw (off, proceed) torn
  ]
  proceed-IsTorn n now s counting e torn = elim (Bool-cases (ltb 0 s.system.pool.active_workers)) [
    | inl on ↦ rw (on, proceed) torn
    | inr off ↦
        rw (off, proceed)
          (record {
            few = torn.few;
            counted = torn.counted;
            bounded = torn.bounded;
            others = torn.others;
            joined = λ h. torn.joined (ap is_joined e);
            once = omega (
              arith,
              length-append s.finals (call_final s.final_callback),
              length-call_final s.final_callback,
              subst (λ ph. length s.finals ≤ calls ph) e torn.once,
            );
          })
  ]
  proceed-IsTorn n now s finished e torn = torn

  pub unwind-IsTorn :
      (n : ℕ) (events : List (Event T)) (s : Teardown T) → IsTorn n s → IsTorn n (unwind n s events)
  unfolding unwind advance
  unwind-IsTorn n [] s torn = torn
  unwind-IsTorn n (acts a ∷ events) s torn = unwind-IsTorn n events _ (step-IsTorn n s a torn)
  unwind-IsTorn n (sets_final cb ∷ events) s torn = unwind-IsTorn n events _ (record {
    few = torn.few;
    counted = torn.counted;
    bounded = torn.bounded;
    others = torn.others;
    joined = torn.joined;
    once = torn.once;
  })
  unwind-IsTorn n (proceeds now ∷ events) s torn =
      unwind-IsTorn n events _ (proceed-IsTorn n now s s.phase refl torn)
