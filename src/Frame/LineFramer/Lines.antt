-- ===== src/Frame/LineFramer/Lines.antt =====
-- frame/simple_line_framer.h: what `OnData` returns for a buffer that holds whole lines and the
-- beginning of one more.
use mathlib.Core.List.{append_assoc, append-nil}
use vectro.Common.{
  ltb, length-drop, ℕ, suc, ◌+◌, ◌-◌, ◌^◌, ◌<◌, ◌≡◌, ◌≢◌, refl, sym, ap, ◌∙◌, true, List, [], ◌∷◌,
  ◌++◌, map, length, length-append, take, drop, take-append_left, drop-append_left, arith,
}
use vectro.Frame.RawBuffer.{invalid_argument}
use vectro.Frame.LineFramer.{
  newline, Line, LineFramer, Outcome, returned, threw, slice, add64, scan, keep_rest, on_data,
}
use vectro.Frame.LineFramer.Scan.{line, walk, scan-walk}

-- The bytes of the lines `ls`, each with its newline, and of the unfinished line `rest`.
abbrev pub encode : List (List ℕ) → List ℕ → List ℕ
encode [] rest = rest
encode (l ∷ ls) rest = l ++ newline ∷ encode ls rest

abbrev pub IsPlain : List ℕ → Type 0
IsPlain [] = Unit
IsPlain (b ∷ bs) = (b ≢ newline) × IsPlain bs

-- No line is empty, and none has a newline in it.
abbrev pub AreLines : List (List ℕ) → Type 0
AreLines [] = Unit
AreLines (l ∷ ls) = (l ≢ []) × IsPlain l × AreLines ls

-- What the framer holds of a line that has no end yet.
abbrev pub pending : LineFramer → List ℕ
pending f = take f.write_pos f.scratch

module _ (new_ptr : ℕ → ℕ) where
  pub walk-plain :
      (bs cur more : List ℕ) (start : ℕ) (out : List Line)
      → IsPlain bs
      → walk new_ptr cur (bs ++ more) start out ≡ walk new_ptr (cur ++ bs) more start out
  unfolding walk
  walk-plain [] cur more start out p = rw (append-nil cur)
  walk-plain (b ∷ bs) cur more start out p =
      ground
        (arith, p.0, walk-plain bs (cur ++ b ∷ []) more start out p.1, append_assoc cur (b ∷ []) bs)

  pub walk-newline :
      (cur more : List ℕ) (start : ℕ) (out : List Line)
      → cur ≢ []
      → walk new_ptr cur (newline ∷ more) start out
        ≡ walk new_ptr [] more (suc (start + length cur)) (out ++ line new_ptr cur ∷ [])
  unfolding walk
  walk-newline [] more start out h = absurd (h refl)
  walk-newline (c ∷ cur) more start out h = refl

  walk-encode :
      (ls : List (List ℕ)) (rest : List ℕ) (start : ℕ) (out : List Line)
      → AreLines ls
      → walk new_ptr [] (encode ls rest) start out
        ≡ walk new_ptr [] rest (start + length (encode ls [])) (out ++ map (line new_ptr) ls)
  walk-encode [] rest start out p = rw (append-nil out) (ground arith)
  walk-encode (l ∷ ls) rest start out p =
      walk-plain l [] (newline ∷ encode ls rest) start out p.1
      ∙ walk-newline l (encode ls rest) start out p.0
      ∙ walk-encode ls rest (suc (start + length l)) (out ++ line new_ptr l ∷ []) p.2
      ∙ ground (
        arith,
        append_assoc out (line new_ptr l ∷ []) (map (line new_ptr) ls),
        length-append l (newline ∷ encode ls []),
      )

  pub encode-append : (ls : List (List ℕ)) (rest : List ℕ) → encode ls rest ≡ encode ls [] ++ rest
  encode-append [] rest = refl
  encode-append (l ∷ ls) rest =
      rw (encode-append ls rest) (sym (append_assoc l (newline ∷ encode ls []) rest))

  -- The loop over a buffer of lines returns them, and the place where the last one ends.
  scan-encode :
      (ls : List (List ℕ)) (rest junk bytes : List ℕ)
      → bytes ≡ encode ls rest ++ junk
      → AreLines ls
      → IsPlain rest
      → scan new_ptr (length (encode ls rest)) 0 0 bytes []
        ≡ (returned (map (line new_ptr) ls), length (encode ls []))
  unfolding walk
  scan-encode ls rest junk bytes e p q =
      scan-walk new_ptr (encode ls rest) [] [] junk bytes 0 0 []
        (record { layout = e; at_start = refl; at_index = omega arith })
      ∙ walk-encode ls rest 0 [] p
      ∙ ground (
        arith,
        append-nil rest,
        walk-plain rest [] [] (0 + length (encode ls [])) (map (line new_ptr) ls) q,
      )

  -- The bytes behind the last line move to the front.
  keep_rest-encode :
      (done rest junk : List ℕ) (out : List Line) (f : LineFramer)
      → f.scratch ≡ done ++ (rest ++ junk)
      → f.write_pos ≡ length done + length rest
      → (pending (keep_rest new_ptr (returned out, length done) f) ≡ rest)
        × (length (keep_rest new_ptr (returned out, length done) f).scratch ≡ length f.scratch)
  keep_rest-encode done [] junk out f e w = ground arith
  keep_rest-encode done (b ∷ rest) junk out f e w = rw more (
    rw (moved, size) (take-append_left (b ∷ rest) _),
    rw (moved, size)
        (omega (
          arith,
          length-append (b ∷ rest) (drop (length (b ∷ rest)) f.scratch),
          length-drop (length (b ∷ rest)) f.scratch,
          ap length e,
          length-append done ((b ∷ rest) ++ junk),
          length-append (b ∷ rest) junk,
        )),
  )
    where
      size : f.write_pos - length done ≡ length (b ∷ rest)
      size = omega (arith, w)

      more : ltb (length done) f.write_pos ≡ true
      more = ground (arith, w)

      moved : slice f.scratch (length done) (f.write_pos - length done) ≡ b ∷ rest
      moved =
          rw (size, e, drop-append_left done ((b ∷ rest) ++ junk))
            (take-append_left (b ∷ rest) junk)

  -- Where the buffer, below `2 ^ 64` bytes, holds whole lines, each non-empty and without a newline,
  -- and then the beginning of one more, up to `write_pos_ + n`: `OnData(n)` returns one message for
  -- each line, in order, with its bytes and a buffer of its size, and keeps the beginning of the last
  -- line at the front of a buffer of the same size.
  pub on_data-encode :
      (ls : List (List ℕ)) (rest junk : List ℕ) (n : ℕ) (f : LineFramer)
      → f.scratch ≡ encode ls rest ++ junk
      → f.write_pos + n ≡ length (encode ls rest)
      → length f.scratch < 2 ^ 64
      → AreLines ls
      → IsPlain rest
      → ((on_data new_ptr n f).0 ≡ returned (map (line new_ptr) ls))
        × (pending (on_data new_ptr n f).1 ≡ rest)
        × (length (on_data new_ptr n f).1.scratch ≡ length f.scratch)
  unfolding on_data
  on_data-encode ls rest junk n f e w fits p q =
      rw (position, scan-encode ls rest junk f.scratch e p q) (refl, kept.0, kept.1)
    where
      kept :
          (pending (
              keep_rest new_ptr
                (returned (map (line new_ptr) ls), length (encode ls []))
                (record f { write_pos = length (encode ls rest) }))
            ≡ rest)
          × (length
                (keep_rest new_ptr
                  (returned (map (line new_ptr) ls), length (encode ls []))
                  (record f { write_pos = length (encode ls rest) })).scratch
              ≡ length f.scratch)
      kept =
          keep_rest-encode (encode ls []) rest junk (map (line new_ptr) ls)
            (record f { write_pos = length (encode ls rest) })
            (e
              ∙ ap (λ bs. bs ++ junk) (encode-append ls rest)
              ∙ append_assoc (encode ls []) rest junk)
            (ap length (encode-append ls rest) ∙ length-append (encode ls []) rest)

      position : add64 f.write_pos n ≡ length (encode ls rest)
      position = omega (arith, w, fits, ap length e, length-append (encode ls rest) junk)

  walk-empty_line :
      (ls : List (List ℕ)) (more : List ℕ) (start : ℕ) (out : List Line)
      → AreLines ls
      → (walk new_ptr [] (encode ls (newline ∷ more)) start out).0 ≡ threw invalid_argument
  unfolding walk
  walk-empty_line ls more start out p = rw (walk-encode ls (newline ∷ more) start out p)

  -- Where an empty line follows any number of good lines in the buffer, below `2 ^ 64` bytes: `OnData`
  -- throws `std::invalid_argument`, the messages of the good lines are lost, and the framer keeps
  -- every byte, so that the empty line is met again.
  pub on_data_empty_line :
      (ls : List (List ℕ)) (more junk : List ℕ) (n : ℕ) (f : LineFramer)
      → f.scratch ≡ encode ls (newline ∷ more) ++ junk
      → f.write_pos + n ≡ length (encode ls (newline ∷ more))
      → length f.scratch < 2 ^ 64
      → AreLines ls
      → on_data new_ptr n f ≡ (threw invalid_argument, record f { write_pos = f.write_pos + n })
  unfolding on_data
  on_data_empty_line ls more junk n f e w fits p = ground (
    arith,
    position,
    ap (λ (r : Outcome × ℕ). r.0)
        (scan-walk new_ptr (encode ls (newline ∷ more)) [] [] junk f.scratch 0 0 []
          (record { layout = e; at_start = refl; at_index = omega arith })),
    walk-empty_line ls more 0 [] p,
  )
    where
      position : add64 f.write_pos n ≡ length (encode ls (newline ∷ more))
      position =
          omega (arith, w, fits, ap length e, length-append (encode ls (newline ∷ more)) junk)
