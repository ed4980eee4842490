-- ===== src/Frame/RawBuffer.antt =====
-- frame/raw_buffer.h and frame/raw_buffer.cc: a buffer that owns a block of memory and returns it
-- to a deleter. A pointer is a number, with `none` for nullptr; a deleter is named by a number. The
-- objects of a program stand in a list, so that a move between an object and itself can be written.
pub mod Ownership
pub mod Tests
use vectro.Common.{
  ℕ, ◌+◌, ◌≡◌, Bool, true, false, ◌&&◌, ◌||◌, not, Option, none, some, List, [], ◌∷◌, ◌++◌, ltb,
  nat_beq, if◌then◌else◌, get_or, set,
}

pub data Error : Type 0 where
  invalid_argument bad_alloc : Error

pub data Result (A : Type 0) : Type 0 where
  ok : A → Result A
  err : Error → Result A

-- A default-constructed buffer is `null_buffer`.
pub record RawBuffer : Type 0 where
  pub data_ : Option ℕ
  pub size_ : ℕ
  pub deleter_ : Option ℕ

abbrev pub null_buffer : RawBuffer
null_buffer = record { data_ = none; size_ = 0; deleter_ = none }

-- A block with the size and the deleter that go with it: what an allocation grants, and what a call
-- of the deleter gives back.
pub record Block : Type 0 where
  pub ptr : ℕ
  pub bytes : ℕ
  pub deleter : ℕ

abbrev is_null {ℓ} : {A : Type ℓ} → Option A → Bool
is_null none = true
is_null (some a) = false

-- `RawBuffer(data, size, deleter)`
construct : Option ℕ → ℕ → Option ℕ → Result RawBuffer
construct data_ size deleter =
    if is_null data_ || nat_beq size 0 || is_null deleter
    then err invalid_argument
    else ok (record { data_ = data_; size_ = size; deleter_ = deleter })

-- The second part is what `alloc` returned, where it was called. `alloc` is the caller's function.
unfoldable pub make : ℕ → Option (ℕ → Option ℕ) → Option ℕ → Result RawBuffer × Option ℕ
unfolding construct
make size none deleter = (err invalid_argument, none)
make size (some alloc) none = (err invalid_argument, none)
make size (some alloc) (some d) = elim (alloc size) [
  | none ↦ (err bad_alloc, none)
  | some ptr ↦ (construct (some ptr) size (some d), some ptr)
]

abbrev pub size : RawBuffer → ℕ
size b = b.size_

unfoldable pub valid : RawBuffer → Bool
valid b = not (is_null b.data_) && ltb 0 b.size_

-- The call of the deleter that `Reset` makes, if it makes one.
unfoldable pub release : RawBuffer → List Block
release b = elim b.data_ [
  | none ↦ []
  | some p ↦ elim b.deleter_ [
    | none ↦ []
    | some d ↦ record { ptr = p; bytes = b.size_; deleter = d } ∷ []
  ]
]

pub record Store : Type 0 where
  -- the buffer objects of the program
  pub objects : List RawBuffer
  -- the blocks that allocators have granted or the program has handed over, and those that deleters have been called with
  pub granted : List Block
  pub released : List Block

abbrev pub object : Store → ℕ → RawBuffer
object s i = get_or s.objects i null_buffer

-- `Reset`, and the destructor, which calls it
unfoldable pub reset : ℕ → Store → Store
unfolding release
reset i s = record s {
  objects = set s.objects i null_buffer;
  released = release (object s i) ++ s.released;
}

-- `MoveFrom`, from object `j` to object `i`
pub move_from : ℕ → ℕ → Store → Store
move_from i j s = record s { objects = set (set s.objects i (object s j)) j null_buffer }

-- `operator=(RawBuffer&&)`
pub move_assign : ℕ → ℕ → Store → Store
unfolding reset move_from
move_assign i j s = if nat_beq i j then s else move_from i j (reset i s)

-- `RawBuffer(RawBuffer&&)`: a new object, at the front, that takes over object `j`
unfoldable pub move_construct : ℕ → Store → Store
move_construct j s = record s { objects = object s j ∷ set s.objects j null_buffer }

abbrev granted_block : ℕ → Option ℕ → Option ℕ → List Block
granted_block size deleter none = []
granted_block size none (some p) = []
granted_block size (some d) (some p) = record { ptr = p; bytes = size; deleter = d } ∷ []

abbrev added : Result RawBuffer → List RawBuffer
added (ok b) = b ∷ []
added (err e) = []

-- `RawBuffer b = RawBuffer::Make(size, alloc, deleter)`
pub make_object : ℕ → Option (ℕ → Option ℕ) → Option ℕ → Store → Store
unfolding make
make_object size alloc deleter s =
    let (r, p) = make size alloc deleter in
    record s { objects = added r ++ s.objects; granted = granted_block size deleter p ++ s.granted }

-- The block that a successful construction takes over.
abbrev adopted : Option ℕ → ℕ → Option ℕ → Result RawBuffer → List Block
adopted data_ size deleter (ok b) = granted_block size deleter data_
adopted data_ size deleter (err e) = []

-- `RawBuffer b(data, size, deleter)`
pub adopt : Option ℕ → ℕ → Option ℕ → Store → Store
unfolding construct
adopt data_ size deleter s =
    let r = construct data_ size deleter in
    record s { objects = added r ++ s.objects; granted = adopted data_ size deleter r ++ s.granted }

pub data Op : Type 0 where
  adopts : Option ℕ → ℕ → Option ℕ → Op
  makes : ℕ → Option (ℕ → Option ℕ) → Option ℕ → Op
  move_constructs : ℕ → Op
  move_assigns : ℕ → ℕ → Op
  resets : ℕ → Op

pub step : Store → Op → Store
unfolding adopt make_object move_construct move_assign reset
step s (adopts data_ size deleter) = adopt data_ size deleter s
step s (makes size alloc deleter) = make_object size alloc deleter s
step s (move_constructs j) = move_construct j s
step s (move_assigns i j) = move_assign i j s
step s (resets i) = reset i s

pub run : Store → List Op → Store
run s [] = s
run s (op ∷ ops) = run (step s op) ops

abbrev pub start : Store
start = record { objects = []; granted = []; released = [] }
