-- ===== src/Frame/LineFramer/Tests.antt =====
-- frame/simple_line_framer.h: reads of a few bytes, and the theorems at them.
use vectro.Common.{
  ℕ, zero, suc, ◌+◌, ◌≡◌, ◌≢◌, refl, List, [], ◌∷◌, ◌++◌, map, length, replicate, length-replicate,
  arith,
}
use vectro.Frame.RawBuffer.{invalid_argument}
use vectro.Frame.LineFramer.{
  newline, LineFramer, returned, threw, prepare_read, on_data, read_chunk,
}
use vectro.Frame.LineFramer.Scan.{line}
use vectro.Frame.LineFramer.Lines.{encode, AreLines, IsPlain, pending, on_data_empty_line}
use vectro.Frame.LineFramer.Stream.{feed, feed-encode}
use vectro.Frame.LineFramer.Chunks.{read_chunk_loses_pending}

-- Fresh memory holds zeros, and a block's address is its size and one.
abbrev zeros : ℕ → List ℕ
zeros n = replicate n 0

abbrev ptr : ℕ → ℕ
ptr n = n + 1

-- The lines "ab" and "c", and the beginning "d" of a third.
abbrev lines : List (List ℕ)
lines = (97 ∷ 98 ∷ []) ∷ (99 ∷ []) ∷ []

abbrev small : LineFramer
small = record { scratch = encode lines (100 ∷ []) ++ 0 ∷ 0 ∷ []; write_pos = 0 }

lines-AreLines : AreLines lines
lines-AreLines = (
  (λ e. cc),
  ((λ e. omega arith), ((λ e. omega arith), tt)),
  ((λ e. cc), ((λ e. omega arith), tt), tt),
)

rest-IsPlain : IsPlain (100 ∷ [])
rest-IsPlain = ((λ e. omega arith), tt)

-- Two newlines, one after the other.
abbrev blank : LineFramer
blank = record { scratch = encode lines (newline ∷ []); write_pos = 0 }

on_data_empty_line_example :
    on_data ptr 6 blank ≡ (threw invalid_argument, record blank { write_pos = 6 })
on_data_empty_line_example =
    on_data_empty_line ptr lines [] [] 6 blank refl refl (omega arith) lines-AreLines

-- A framer with a full-size buffer.
abbrev roomy : ℕ → LineFramer
roomy n = record { scratch = zeros 2048; write_pos = n }

length-roomy : (n : ℕ) → length (roomy n).scratch ≡ 2048
length-roomy n = length-replicate {A = ℕ} 2048 0

read_chunk_loses_pending_example :
    (read_chunk zeros ptr (100 ∷ newline ∷ []) (roomy 1)).0
    ≢ returned (line ptr (pending (roomy 1) ++ 100 ∷ []) ∷ [])
read_chunk_loses_pending_example =
    read_chunk_loses_pending zeros ptr (100 ∷ []) (roomy 1) [] (omega (arith, length-roomy 1))
      (omega (arith, length-roomy 1)) (omega (arith, length-roomy 1)) (λ e. cc) (λ e. cc)
      rest-IsPlain

-- With too little room the pending bytes are dropped with the old buffer.
dropped : (prepare_read zeros (roomy 1500)).write_pos ≡ 0
unfolding prepare_read
dropped = refl

zeros-IsPlain : (n : ℕ) → IsPlain (zeros n)
zeros-IsPlain zero = tt
zeros-IsPlain (suc n) = ((λ e. omega arith), zeros-IsPlain n)

-- The bytes of `lines` and the beginning of a third, in three chunks that end within a line, before
-- a newline and within a line.
abbrev chunks : List (List ℕ)
chunks = (97 ∷ []) ∷ (98 ∷ newline ∷ 99 ∷ []) ∷ (newline ∷ 100 ∷ []) ∷ []

abbrev idle : LineFramer
idle = record { scratch = zeros 8; write_pos = 0 }

feed-encode_example :
    ((feed ptr chunks idle).0 ≡ returned (map (line ptr) lines))
    × (pending (feed ptr chunks idle).1 ≡ 100 ∷ [])
feed-encode_example =
    feed-encode ptr chunks lines (100 ∷ []) idle (omega arith) (omega arith) (omega arith) tt refl
      lines-AreLines rest-IsPlain
