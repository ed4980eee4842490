-- ===== src/Pool/Teardown/Live.antt =====
-- pool/task_multi_processor.h: the threads that have not left their loops, against `active_workers_`.

use vectro.Common.{
  ℕ, zero, suc, ◌+◌, ◌^◌, ◌≤◌, ◌<◌, ◌≡◌, refl, true, none, some, List, [], ◌∷◌, get_elem?, set,
  total, total-set_at, arith, Option-cases, inl, inr,
}
use vectro.Pool.{
  Processor, Pc, outside, loaded, placing, pushing, pushed, looping, waiting, woken, missed,
  stealing, took, uncounted, calling, reporting, leaving, crashed, ended,
}
use vectro.Pool.System.{Choice, submits, goes, move}
use vectro.Pool.Teardown.{is_ended, are_joined}

module _ {T : Type 0} where
  -- A worker that has not left its loop for good.
  abbrev pub live : Pc T → ℕ
  live (looping id) = 1
  live (waiting id) = 1
  live (woken id) = 1
  live (missed id) = 1
  live (stealing id vic) = 1
  live (took id ti) = 1
  live (uncounted id ti) = 1
  live (calling id ti) = 1
  live (reporting id) = 1
  live leaving = 1
  live (crashed none) = 1
  live _ = 0

  -- What a step does to the count of the workers.
  abbrev KeepsActive : Processor T → Pc T → Processor T × Pc T → Type 0
  KeepsActive p pc r =
      (r.0.active_workers + live pc ≡ p.active_workers + live r.1) × (live r.1 ≤ live pc)

  pub move-KeepsActive :
      (c : Choice T) (p : Processor T) (pc : Pc T)
      → live pc ≤ p.active_workers
      → p.active_workers < 2 ^ 64
      → KeepsActive p pc (move c p pc)
  unfolding move
  move-KeepsActive (submits ti) p outside le small = (refl, omega arith)
  move-KeepsActive (goes now) p outside le small = (refl, omega arith)
  move-KeepsActive c p (loaded ti curr) le small = ground arith
  move-KeepsActive c p (placing ti) le small = ground arith
  move-KeepsActive c p (pushing ti idx) le small = elim (Option-cases (get_elem? p.queues idx)) [
    | inl out ↦ ground (arith, out)
    | inr (q, e) ↦ ground (arith, e)
  ]
  move-KeepsActive c p pushed le small = ground arith
  move-KeepsActive c p (looping id) le small = ground arith
  move-KeepsActive c p (waiting id) le small = ground arith
  move-KeepsActive c p (woken id) le small = elim (Option-cases (get_elem? p.queues id)) [
    | inl out ↦ ground (arith, out)
    | inr ([], e) ↦ ground (arith, e)
    | inr (ti ∷ q, e) ↦ ground (arith, e)
  ]
  move-KeepsActive c p (missed id) le small = ground arith
  move-KeepsActive c p (stealing id vic) le small = elim (Option-cases (get_elem? p.queues vic)) [
    | inl out ↦ ground (arith, out)
    | inr ([], e) ↦ ground (arith, e)
    | inr (x ∷ xs, e) ↦ ground (arith, e)
  ]
  move-KeepsActive c p (took id ti) le small = ground arith
  move-KeepsActive c p (uncounted id ti) le small = ground arith
  move-KeepsActive c p (calling id ti) le small = ground arith
  move-KeepsActive c p (reporting id) le small = ground arith
  move-KeepsActive c p leaving le small = ground arith
  move-KeepsActive c p (crashed held) le small = (refl, omega arith)
  move-KeepsActive c p ended le small = (refl, omega arith)

  move-ended :
      (c : Choice T) (p : Processor T) (pc : Pc T)
      → is_ended pc ≡ true
      → is_ended (move c p pc).1 ≡ true
  unfolding move
  move-ended c p ended h = refl
  move-ended c p pc h = ground arith

  -- A thread that has ended stays so.
  pub set-are_joined :
      (n : ℕ) (pcs : List (Pc T)) (i : ℕ) (pc : Pc T) (c : Choice T) (p : Processor T)
      → get_elem? pcs i ≡ some pc
      → are_joined n pcs ≡ true
      → are_joined n (set pcs i (move c p pc).1) ≡ true
  set-are_joined zero pcs i pc c p e h = refl
  set-are_joined (suc n) [] i pc c p e h = refl
  set-are_joined (suc n) (x ∷ pcs) zero pc c p e h = grind (arith, move-ended c p pc)
  set-are_joined (suc n) (x ∷ pcs) (suc i) pc c p e h =
      ground (arith, set-are_joined n pcs i pc c p)

  -- The live threads after the first `n`.
  abbrev pub rest_live : ℕ → List (Pc T) → ℕ
  rest_live zero pcs = total live pcs
  rest_live (suc n) [] = 0
  rest_live (suc n) (pc ∷ pcs) = rest_live n pcs

  pub set-rest_live :
      (n : ℕ) (pcs : List (Pc T)) (i : ℕ) (x v : Pc T)
      → get_elem? pcs i ≡ some x
      → live v ≤ live x
      → rest_live n (set pcs i v) ≤ rest_live n pcs
  set-rest_live zero pcs i x v e le = omega (arith, total-set_at live pcs i x v e)
  set-rest_live (suc n) [] i x v e le = omega arith
  set-rest_live (suc n) (y ∷ pcs) zero x v e le = omega arith
  set-rest_live (suc n) (y ∷ pcs) (suc i) x v e le = set-rest_live n pcs i x v e le

  pub joined-live :
      (n : ℕ) (pcs : List (Pc T)) → are_joined n pcs ≡ true → total live pcs ≤ rest_live n pcs
  joined-live zero pcs h = omega arith
  joined-live (suc n) [] h = omega arith
  joined-live (suc n) (ended ∷ pcs) h = omega (arith, joined-live n pcs h)
  joined-live (suc n) (pc ∷ pcs) h = ground arith

  pub live_at :
      (pcs : List (Pc T)) (i : ℕ) (x : Pc T) → get_elem? pcs i ≡ some x → live x ≤ total live pcs
  live_at [] i x e = ground arith
  live_at (y ∷ pcs) zero x e = ground arith
  live_at (y ∷ pcs) (suc i) x e = omega (arith, live_at pcs i x e)
