-- ===== src/Frame/RawBuffer/Tests.antt =====
-- frame/raw_buffer.cc: runs of a few buffers, and the theorems at them.
use vectro.Common.{
  ℕ, ◌+◌, ◌≡◌, refl, true, false, some, List, [], ◌∷◌, nat_beq, if◌then◌else◌, total, arith,
}
use vectro.Frame.RawBuffer.{
  Block, valid, size, object, make, err, invalid_argument, Op, makes, move_constructs, move_assigns,
  step, run, start,
}
use vectro.Frame.RawBuffer.Ownership.{weight, AreAllowed, run-IsBalanced}

-- The allocator hands out the address 7 with the deleter 1.
abbrev moves : List Op
moves =
    makes 16 (some (λ s. some 7)) (some 1)
    ∷ move_constructs 0
    ∷ move_assigns 0 0
    ∷ move_assigns 1 0
    ∷ []

abbrev is_seven : Block → ℕ
is_seven b = if nat_beq b.ptr 7 then 1 else 0

-- The block goes to the new object and back, and is never given back on the way.
moved :
    (valid (object (run start moves) 0) ≡ false)
    × (valid (object (run start moves) 1) ≡ true)
    × (size (object (run start moves) 1) ≡ 16)
    × (total is_seven (run start moves).released ≡ 0)
unfolding run step valid
moved = (refl, refl, refl, refl)

-- A size of 0 is refused after the allocator has been called: the block is lost.
make_zero : make 0 (some (λ s. some 7)) (some 1) ≡ (err invalid_argument, some 7)
unfolding make
make_zero = refl

moves-AreAllowed : AreAllowed start moves
unfolding step
moves-AreAllowed =
    (omega arith, (omega arith, ((omega arith, omega arith), ((omega arith, omega arith), tt))))

run-IsBalanced_example :
    total is_seven (run start moves).granted
    ≡ total (weight is_seven) (run start moves).objects + total is_seven (run start moves).released
run-IsBalanced_example = run-IsBalanced is_seven moves moves-AreAllowed
