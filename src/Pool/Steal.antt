-- ===== src/Pool/Steal.antt =====
-- pool/task_multi_processor.h: the queue that the default policy steals from.
use mathlib.Core.Path.{subst}
use mathlib.Core.List.{append_assoc, append-nil}
use native.Mathlib.Decide.{dec_lt}
use vectro.Common.{
  ltb→lt, refl, ap, ◌++◌, length-append, ℕ, zero, suc, ◌≤◌, ◌<◌, ◌≡◌, ◌≢◌, List, [], ◌∷◌, ltb,
  if◌then◌else◌, length, get_or, arith, Bool-cases, inl, inr,
}
use vectro.Pool.{max_element, default_steal_policy}

-- Where the search stands: `best` is the first of the largest among the first `i`.
record IsBest (all : List ℕ) (best best_size i : ℕ) : Type 0 where
  size : get_or all best 0 ≡ best_size
  before : best < i
  largest : (j : ℕ) → j < i → get_or all j 0 ≤ best_size
  first : (j : ℕ) → j < best → get_or all j 0 < best_size

-- The sizes from `i` on.
IsRest : List ℕ → ℕ → List ℕ → Type 0
IsRest all i [] = length all ≡ i
IsRest all i (n ∷ sizes) = (get_or all i 0 ≡ n) × IsRest all (suc i) sizes

advance :
    (all : List ℕ) (best best_size i n : ℕ)
    → get_or all i 0 ≡ n
    → IsBest all best best_size i
    → IsBest all
        (if ltb best_size n then i else best)
        (if ltb best_size n then n else best_size)
        (suc i)
advance all best best_size i n here b = elim (Bool-cases (ltb best_size n)) [
  | inl more ↦ rw more (record {
    size = here;
    before = omega arith;
    largest = λ j lt.
        up_to j lt (λ old. omega (arith, b.largest j old, ltb→lt best_size n more))
          (λ at. omega (arith, at, here));
    first = λ j lt. omega (arith, b.largest j lt, ltb→lt best_size n more);
  })
  | inr less ↦ rw less (record {
    size = b.size;
    before = omega (arith, b.before);
    largest = λ j lt. up_to j lt (b.largest j) (λ at. ground (arith, at, here, less));
    first = b.first;
  })
]
  where
    -- A position before `suc i` is one before `i`, or `i` itself.
    up_to :
        (j : ℕ)
        → j < suc i
        → {m : ℕ} → (j < i → get_or all j 0 ≤ m)
        → (get_or all j 0 ≡ get_or all i 0 → get_or all j 0 ≤ m)
        → get_or all j 0 ≤ m
    up_to j lt old here' = elim (dec_lt j i) [
      | yes p ↦ old p
      | no p ↦ let e : j ≡ i = omega (arith, p, lt) in here' (ap (λ k. get_or all k 0) e)
    ]

start-IsBest : (n : ℕ) (sizes : List ℕ) → IsBest (n ∷ sizes) 0 n 1
start-IsBest n sizes = record {
  size = refl;
  before = omega arith;
  largest = only;
  first = λ j lt. absurd (omega (arith, lt));
}
  where
    only : (j : ℕ) → j < 1 → get_or (n ∷ sizes) j 0 ≤ n
    only zero lt = omega arith
    only (suc j) lt = absurd (omega (arith, lt))

max_element-IsBest :
    (all sizes : List ℕ) (best best_size i : ℕ)
    → IsRest all i sizes
    → IsBest all best best_size i
    → (m : ℕ) × IsBest all (max_element best best_size i sizes) m (length all)
unfolding IsRest
max_element-IsBest all [] best best_size i r b = (best_size, rw r b)
max_element-IsBest all (n ∷ sizes) best best_size i r b =
    max_element-IsBest all sizes (if ltb best_size n then i else best)
      (if ltb best_size n then n else best_size) (suc i) r.1 (advance all best best_size i n r.0 b)

-- Behind `past` stand the sizes that are left.
get_or-append :
    (past : List ℕ) (n : ℕ) (rest : List ℕ) → get_or (past ++ n ∷ rest) (length past) 0 ≡ n
get_or-append [] n rest = refl
get_or-append (x ∷ past) n rest = get_or-append past n rest

drop-IsRest : (past sizes : List ℕ) → IsRest (past ++ sizes) (length past) sizes
unfolding IsRest
drop-IsRest past [] = rw (append-nil past)
drop-IsRest past (n ∷ sizes) = (
  get_or-append past n sizes,
  subst (λ (i : ℕ). IsRest (past ++ n ∷ sizes) i sizes) (omega (arith, length-append past (n ∷ [])))
      (rw (append_assoc past (n ∷ []) sizes) at (drop-IsRest (past ++ n ∷ []) sizes)),
)

-- For at least one queue, the default steal policy names a queue that exists, that no queue is
-- longer than, and that every queue before it is shorter than.
pub default_steal_policy_lem :
    (sizes : List ℕ)
    → sizes ≢ []
    → (default_steal_policy sizes < length sizes)
      × ((j : ℕ)
          → j < length sizes
          → get_or sizes j 0 ≤ get_or sizes (default_steal_policy sizes) 0)
      × ((j : ℕ)
          → j < default_steal_policy sizes
          → get_or sizes j 0 < get_or sizes (default_steal_policy sizes) 0)
unfolding default_steal_policy
default_steal_policy_lem [] some_size = absurd (some_size refl)
default_steal_policy_lem (n ∷ sizes) some_size =
    let (m, b) =
      max_element-IsBest (n ∷ sizes) sizes 0 n 1 (drop-IsRest (n ∷ []) sizes)
        (start-IsBest n sizes) in
    (
      b.before,
      λ j lt. omega (arith, b.largest j lt, b.size),
      λ j lt. omega (arith, b.first j lt, b.size),
    )
