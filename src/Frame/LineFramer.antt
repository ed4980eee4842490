-- ===== src/Frame/LineFramer.antt =====
-- frame/framer_base.h and frame/simple_line_framer.h: a framer that cuts a stream of bytes at each
-- newline. The scratch buffer is the list of its bytes. What stands in fresh memory is not
-- determined, and is the parameter `fresh`; `new_ptr` is the address that `operator new` returns
-- for a size. An allocation that fails is not modelled.
pub mod Scan
pub mod Lines
pub mod Chunks
pub mod Cuts
pub mod Stream
pub mod Tests
use vectro.Common.{
  ℕ, zero, suc, ◌+◌, ◌-◌, ◌%◌, ◌^◌, ◌≡◌, Bool, true, false, Option, none, some, List, [], ◌∷◌, ◌++◌,
  ltb, nat_beq, if◌then◌else◌, length, get_elem?, take, drop,
}
use vectro.Frame.RawBuffer.{Error, Result, ok, err, RawBuffer, make}

abbrev pub newline : ℕ
newline = b'\n'

-- Arithmetic of `size_t`.
abbrev pub add64 : ℕ → ℕ → ℕ
add64 a b = (a + b) % 2 ^ 64

abbrev sub64 : ℕ → ℕ → ℕ
sub64 a b = (a + 2 ^ 64 - b) % 2 ^ 64

pub record LineFramer : Type 0 where
  -- the bytes of `scratch_`
  pub scratch : List ℕ
  pub write_pos : ℕ

-- The payload of a message: its buffer, and the bytes copied into it.
pub record Line : Type 0 where
  pub buffer : RawBuffer
  pub payload : List ℕ

pub data Outcome : Type 0 where
  returned : List Line → Outcome
  threw : Error → Outcome
  -- a read past the end of the scratch buffer
  fault : Outcome

module _ (fresh : ℕ → List ℕ) where
  abbrev pub create : LineFramer
  create = record { scratch = fresh 4096; write_pos = 0 }

  pub prepare_read : LineFramer → LineFramer
  prepare_read f =
      if ltb (sub64 (length f.scratch) f.write_pos) 1024
      then record { scratch = fresh (add64 f.write_pos 4096); write_pos = 0 }
      else f

-- The bytes from `start` on, `len` of them.
abbrev pub slice : List ℕ → ℕ → ℕ → List ℕ
slice bytes start len = take len (drop start bytes)

module _ (new_ptr : ℕ → ℕ) where
  pub make_line : List ℕ → Result Line
  unfolding make
  make_line payload = elim (make (length payload) (some (λ s. some (new_ptr s))) (some 0)).0 [
    | ok b ↦ ok (record { buffer = b; payload = payload })
    | err e ↦ err e
  ]

  -- The loop, from index `i`, with `k` rounds left; it returns the messages and `start`.
  pub scan : ℕ → ℕ → ℕ → List ℕ → List Line → Outcome × ℕ
  scan zero i start bytes out = (returned out, start)
  scan (suc k) i start bytes out = elim (get_elem? bytes i) [
    | none ↦ (fault, start)
    | some c ↦ elim (nat_beq c newline) [
      | true ↦ elim (make_line (slice bytes start (i - start))) [
        | ok line ↦ scan k (suc i) (suc i) bytes (out ++ line ∷ [])
        | err e ↦ (threw e, start)
      ]
      | false ↦ scan k (suc i) start bytes out
    ]
  ]

  -- What is left of the scratch buffer after the loop; an exception leaves it as it was.
  abbrev pub keep_rest : Outcome × ℕ → LineFramer → LineFramer
  keep_rest (returned out, start) f =
      if ltb start f.write_pos
      then record {
        scratch =
            slice f.scratch start (f.write_pos - start) ++ drop (f.write_pos - start) f.scratch;
        write_pos = f.write_pos - start;
      }
      else record f { write_pos = 0 }
  keep_rest (threw e, start) f = f
  keep_rest (fault, start) f = f

  pub on_data : ℕ → LineFramer → Outcome × LineFramer
  unfolding scan make_line
  on_data n f =
      let g = record f { write_pos = add64 f.write_pos n } in
      let r = scan g.write_pos 0 0 g.scratch [] in (r.0, keep_rest r g)

-- What the caller does with the reference that `PrepareRead` returns: the socket writes the bytes
-- that have arrived at `data()`, the start of the buffer.
abbrev pub receive : List ℕ → LineFramer → LineFramer
receive chunk f = record f { scratch = chunk ++ drop (length chunk) f.scratch }

-- One read of a session: `PrepareRead`, the socket, `OnData`.
pub read_chunk : (ℕ → List ℕ) → (ℕ → ℕ) → List ℕ → LineFramer → Outcome × LineFramer
unfolding prepare_read on_data
read_chunk fresh new_ptr chunk f =
    on_data new_ptr (length chunk) (receive chunk (prepare_read fresh f))
