-- ===== src/Frame/RawBuffer/Ownership.antt =====
-- frame/raw_buffer.cc: who owns the blocks that were granted.
use vectro.Common.{
  ℕ, zero, suc, ◌+◌, ◌≤◌, ◌<◌, ◌≡◌, ◌≢◌, refl, ap, inl, inr, Option, none, some, List, [], ◌∷◌,
  nat_beq, get_or, set, length, length-set, total, total-append, total-set, arith, Bool-cases,
}
use vectro.Frame.RawBuffer.{
  RawBuffer, null_buffer, Block, Store, object, release, reset, move_from, move_assign,
  move_construct, make_object, adopt, Op, adopts, makes, move_constructs, move_assigns, resets,
  step, run, start,
}

-- What a buffer owns, as it would be given back.
abbrev pub weight : (Block → ℕ) → RawBuffer → ℕ
weight w b = total w (release b)

-- Summed over any weight of blocks: what was granted is owned by some object or was given back.
-- With the weight that counts one block, this says how often it is owned or was given back.
abbrev IsBalanced : (Block → ℕ) → Store → Type 0
IsBalanced w s = total w s.granted ≡ total (weight w) s.objects + total w s.released

module _ (w : Block → ℕ) where
  weight-null : weight w null_buffer ≡ 0
  unfolding release
  weight-null = refl

  weight-outside :
      (bs : List RawBuffer) (i : ℕ) → length bs ≤ i → weight w (get_or bs i null_buffer) ≡ 0
  weight-outside [] i h = weight-null
  weight-outside (b ∷ bs) zero h = absurd (omega arith)
  weight-outside (b ∷ bs) (suc i) h = weight-outside bs i (omega arith)

  -- Clearing an object takes its block out, also where there is no such object.
  total-clear :
      (bs : List RawBuffer) (i : ℕ)
      → total (weight w) (set bs i null_buffer) + weight w (get_or bs i null_buffer)
        ≡ total (weight w) bs
  unfolding release
  total-clear [] i = weight-null
  total-clear (b ∷ bs) zero = omega (arith, weight-null)
  total-clear (b ∷ bs) (suc i) = omega (arith, total-clear bs i)

  reset-IsBalanced : (i : ℕ) (s : Store) → IsBalanced w s → IsBalanced w (reset i s)
  unfolding reset
  reset-IsBalanced i s h =
      omega (arith, total-clear s.objects i, total-append w (release (object s i)) s.released)

  get_or-set_ne :
      (bs : List RawBuffer) (i j : ℕ) (b : RawBuffer)
      → i ≢ j
      → get_or (set bs i b) j null_buffer ≡ get_or bs j null_buffer
  get_or-set_ne [] i j b h = refl
  get_or-set_ne (c ∷ bs) zero zero b h = absurd (h refl)
  get_or-set_ne (c ∷ bs) zero (suc j) b h = refl
  get_or-set_ne (c ∷ bs) (suc i) zero b h = refl
  get_or-set_ne (c ∷ bs) (suc i) (suc j) b h = get_or-set_ne bs i j b (λ e. h (ap suc e))

  get_or-clear :
      (bs : List RawBuffer) (i : ℕ) → weight w (get_or (set bs i null_buffer) i null_buffer) ≡ 0
  get_or-clear [] i = weight-null
  get_or-clear (b ∷ bs) zero = weight-null
  get_or-clear (b ∷ bs) (suc i) = get_or-clear bs i

  move_from-IsBalanced :
      (i j : ℕ) (s : Store)
      → i ≢ j
      → i < length s.objects
      → weight w (object s i) ≡ 0
      → IsBalanced w s
      → IsBalanced w (move_from i j s)
  unfolding move_from
  move_from-IsBalanced i j s ne lt free h = omega (
    arith,
    total-clear (set s.objects i (object s j)) j,
    ap (weight w) (get_or-set_ne s.objects i j (object s j) ne),
    total-set (weight w) s.objects i (object s j) null_buffer lt,
  )

  move_assign-IsBalanced :
      (i j : ℕ) (s : Store)
      → i < length s.objects
      → IsBalanced w s
      → IsBalanced w (move_assign i j s)
  unfolding move_assign reset
  move_assign-IsBalanced i j s lt h = elim (Bool-cases (nat_beq i j)) [
    | inl same ↦ rw same h
    | inr other ↦ rw other (
        move_from-IsBalanced i j (reset i s) (ground arith)
          (omega (arith, length-set s.objects i null_buffer)) (get_or-clear s.objects i)
          (reset-IsBalanced i s h))
  ]

  move_construct-IsBalanced :
      (j : ℕ) (s : Store) → IsBalanced w s → IsBalanced w (move_construct j s)
  unfolding move_construct
  move_construct-IsBalanced j s h = omega (arith, total-clear s.objects j)

  make_object-IsBalanced :
      (size : ℕ) (alloc : Option (ℕ → Option ℕ)) (deleter : Option ℕ) (s : Store)
      → 0 < size
      → IsBalanced w s
      → IsBalanced w (make_object size alloc deleter s)
  unfolding make_object release
  make_object-IsBalanced size none deleter s pos h = h
  make_object-IsBalanced size (some alloc) none s pos h = h
  make_object-IsBalanced size (some alloc) (some d) s pos h = ground arith

adopt-IsBalanced :
    (w : Block → ℕ) (data_ : Option ℕ) (size : ℕ) (deleter : Option ℕ) (s : Store)
    → IsBalanced w s
    → IsBalanced w (adopt data_ size deleter s)
unfolding adopt release
adopt-IsBalanced w none size deleter s h = h
adopt-IsBalanced w (some p) size none s h = ground arith
adopt-IsBalanced w (some p) size (some d) s h = ground arith

-- The operations that the class is used by: on objects that exist, and with sizes other than 0.
abbrev IsAllowed : Store → Op → Type 0
IsAllowed s (adopts data_ size deleter) = Unit
IsAllowed s (makes size alloc deleter) = 0 < size
IsAllowed s (move_constructs j) = j < length s.objects
IsAllowed s (move_assigns i j) = (i < length s.objects) × (j < length s.objects)
IsAllowed s (resets i) = i < length s.objects

abbrev pub AreAllowed : Store → List Op → Type 0
AreAllowed s [] = Unit
AreAllowed s (op ∷ ops) = IsAllowed s op × AreAllowed (step s op) ops

step-IsBalanced :
    (w : Block → ℕ) (s : Store) (op : Op)
    → IsAllowed s op
    → IsBalanced w s
    → IsBalanced w (step s op)
unfolding step
step-IsBalanced w s (adopts data_ size deleter) fine h = adopt-IsBalanced w data_ size deleter s h
step-IsBalanced w s (makes size alloc deleter) fine h =
    make_object-IsBalanced w size alloc deleter s fine h
step-IsBalanced w s (move_constructs j) fine h = move_construct-IsBalanced w j s h
step-IsBalanced w s (move_assigns i j) fine h = move_assign-IsBalanced w i j s fine.0 h
step-IsBalanced w s (resets i) fine h = reset-IsBalanced w i s h

run-IsBalanced_from :
    (w : Block → ℕ) (s : Store) (ops : List Op)
    → AreAllowed s ops
    → IsBalanced w s
    → IsBalanced w (run s ops)
unfolding run
run-IsBalanced_from w s [] fine h = h
run-IsBalanced_from w s (op ∷ ops) fine h =
    run-IsBalanced_from w (step s op) ops fine.1 (step-IsBalanced w s op fine.0 h)

-- For any sequence of operations on objects that exist, with sizes other than 0, and any weight of
-- blocks: what the allocators granted and the program handed over is what the objects own with what was given back to the
-- deleters. With the weight that counts one block with its size and deleter: it is owned or has been
-- given back exactly as often as it was granted.
pub run-IsBalanced :
    (w : Block → ℕ) (ops : List Op) → AreAllowed start ops → IsBalanced w (run start ops)
run-IsBalanced w ops fine = run-IsBalanced_from w start ops fine refl

-- Every object has been reset, moved from or destroyed.
abbrev AreNull : List RawBuffer → Type 0
AreNull [] = Unit
AreNull (b ∷ bs) = (b.data_ ≡ none) × AreNull bs

total-AreNull : (w : Block → ℕ) (bs : List RawBuffer) → AreNull bs → total (weight w) bs ≡ 0
unfolding release
total-AreNull w [] h = refl
total-AreNull w (b ∷ bs) h = ground (arith, total-AreNull w bs h.1)

-- For any sequence of operations on objects that exist, with sizes other than 0, after which every
-- object is null: every block that was granted has been given back exactly as often as granted, with
-- its size and its deleter.
run-released :
    (w : Block → ℕ) (ops : List Op)
    → AreAllowed start ops
    → AreNull (run start ops).objects
    → total w (run start ops).released ≡ total w (run start ops).granted
run-released w ops fine null =
    omega (arith, run-IsBalanced w ops fine, total-AreNull w (run start ops).objects null)
