-- ===== src/Frame/LineFramer/Chunks.antt =====
-- frame/simple_line_framer.h as a session reads through it: the socket writes each chunk at the
-- start of the buffer that `PrepareRead` returns (framer_base.h, session.h `StartRead`).
use mathlib.Core.List.{append_assoc, append-nil}
use vectro.Common.{
  drop_all, append_self_left, some, none, ℕ, zero, suc, ◌+◌, ◌^◌, ◌≤◌, ◌<◌, ◌≡◌, ◌≢◌, refl, sym, ap,
  ◌∙◌, List, [], ◌∷◌, ◌++◌, map, length, length-append, length-drop, take, drop, take-append-drop,
  length-take_of_le, arith, get_elem?,
}
use vectro.Frame.LineFramer.{
  newline, Line, LineFramer, Outcome, returned, fault, add64, prepare_read, scan, on_data, receive,
  read_chunk,
}
use vectro.Frame.LineFramer.Scan.{line, walk, scan-walk, get_elem?-append}
use vectro.Frame.LineFramer.Lines.{
  encode, IsPlain, AreLines, pending, walk-plain, walk-newline, on_data-encode,
}

get_elem?_end : (xs : List ℕ) → get_elem? xs (length xs) ≡ none
get_elem?_end [] = refl
get_elem?_end (x ∷ xs) = get_elem?_end xs

module _ (fresh : ℕ → List ℕ) where
  -- With 1024 bytes of room the buffer stays as it is.
  prepare_read_room :
      (f : LineFramer)
      → f.write_pos + 1024 ≤ length f.scratch
      → length f.scratch < 2 ^ 64
      → prepare_read fresh f ≡ f
  unfolding prepare_read
  prepare_read_room f room fits = ground arith

module _ (fresh : ℕ → List ℕ) (new_ptr : ℕ → ℕ) where
  -- A framer with nothing pending and a buffer of 1024 bytes or more, below `2 ^ 64`, that reads a
  -- chunk that fits, of non-empty lines without newlines and the beginning of one more: the read
  -- returns a message for each line, in order, keeps the beginning of the last, and leaves the buffer
  -- its size.
  pub read_chunk-encode :
      (ls : List (List ℕ)) (rest : List ℕ) (f : LineFramer)
      → f.write_pos ≡ 0
      → 1024 ≤ length f.scratch
      → length f.scratch < 2 ^ 64
      → length (encode ls rest) ≤ length f.scratch
      → AreLines ls
      → IsPlain rest
      → ((read_chunk fresh new_ptr (encode ls rest) f).0 ≡ returned (map (line new_ptr) ls))
        × (pending (read_chunk fresh new_ptr (encode ls rest) f).1 ≡ rest)
        × (length (read_chunk fresh new_ptr (encode ls rest) f).1.scratch ≡ length f.scratch)
  unfolding read_chunk
  read_chunk-encode ls rest f start room fits small p q =
      rw (prepare_read_room fresh f (omega (arith, start, room)) fits) (
        result.0,
        result.1,
        omega (
          arith,
          result.2,
          length-append chunk (drop (length chunk) f.scratch),
          length-drop (length chunk) f.scratch,
          small,
        ),
      )
    where
      chunk : List ℕ
      chunk = encode ls rest

      result :
          ((on_data new_ptr (length chunk) (receive chunk f)).0 ≡ returned (map (line new_ptr) ls))
          × (pending (on_data new_ptr (length chunk) (receive chunk f)).1 ≡ rest)
          × (length (on_data new_ptr (length chunk) (receive chunk f)).1.scratch
              ≡ length (receive chunk f).scratch)
      result =
          on_data-encode new_ptr ls rest (drop (length chunk) f.scratch) (length chunk)
            (receive chunk f) refl (omega (arith, start))
            (omega (
              arith,
              length-append chunk (drop (length chunk) f.scratch),
              length-drop (length chunk) f.scratch,
            ))
            p q

  -- A walk that returns begins with the messages that it had.
  walk_head :
      (bs cur : List ℕ) (start : ℕ) (m : Line) (out res : List Line)
      → (walk new_ptr cur bs start (m ∷ out)).0 ≡ returned res
      → get_elem? res 0 ≡ some m
  unfolding walk
  walk_head [] cur start m out res e = ground arith
  walk_head (c ∷ cs) cur start m out res e = ground (
    arith,
    walk_head cs [] (suc (start + length cur)) m (out ++ line new_ptr cur ∷ []) res,
    walk_head cs (cur ++ c ∷ []) start m out res,
  )

  -- The first line of a buffer is the first message, if any is returned.
  on_data_head :
      (x stale junk : List ℕ) (n : ℕ) (f : LineFramer) (m : Line) (ms : List Line)
      → f.scratch ≡ (x ++ newline ∷ stale) ++ junk
      → add64 f.write_pos n ≡ length (x ++ newline ∷ stale)
      → x ≢ []
      → IsPlain x
      → (on_data new_ptr n f).0 ≡ returned (m ∷ ms)
      → m ≡ line new_ptr x
  unfolding on_data
  on_data_head x stale junk n f m ms e w some_x plain out = ground (arith, first)
    where
      walked :
          scan new_ptr (length (x ++ newline ∷ stale)) 0 0 f.scratch []
          ≡ walk new_ptr [] stale (suc (0 + length x)) (line new_ptr x ∷ [])
      walked =
          scan-walk new_ptr (x ++ newline ∷ stale) [] [] junk f.scratch 0 0 []
            (record { layout = e; at_start = refl; at_index = omega arith })
          ∙ walk-plain new_ptr x [] (newline ∷ stale) 0 [] plain
          ∙ walk-newline new_ptr x stale 0 [] some_x

      first : get_elem? (m ∷ ms) 0 ≡ some (line new_ptr x)
      first =
          walk_head stale [] (suc (0 + length x)) (line new_ptr x) [] (m ∷ ms)
            (ap (λ (r : Outcome × ℕ). r.0) (sym walked) ∙ rw (← w) out)

  -- A framer that holds the beginning of a line and has 1024 bytes of room, and then reads the rest
  -- of that line with its newline, where it fits: the read never returns the whole line as its first
  -- message, since the chunk is written over what was pending.
  pub read_chunk_loses_pending :
      (x : List ℕ) (f : LineFramer) (ms : List Line)
      → f.write_pos + 1024 ≤ length f.scratch
      → length f.scratch < 2 ^ 64
      → f.write_pos + length (x ++ newline ∷ []) ≤ length f.scratch
      → pending f ≢ []
      → x ≢ []
      → IsPlain x
      → (read_chunk fresh new_ptr (x ++ newline ∷ []) f).0
        ≢ returned (line new_ptr (pending f ++ x) ∷ ms)
  unfolding read_chunk
  read_chunk_loses_pending x f ms room fits small held some_x plain h = held (
      append_self_left (pending f) x (
        ap (λ (m : Line). m.payload)
          (on_data_head x stale junk n (receive chunk f) _ ms layout position some_x plain
            (rw (prepare_read_room fresh f room fits) at h))))
    where
      chunk : List ℕ
      chunk = x ++ newline ∷ []

      n : ℕ
      n = length chunk

      stale : List ℕ
      stale = take f.write_pos (drop n f.scratch)

      junk : List ℕ
      junk = drop f.write_pos (drop n f.scratch)

      layout : chunk ++ drop n f.scratch ≡ (x ++ newline ∷ stale) ++ junk
      layout =
          ap (λ bs. chunk ++ bs) (sym (take-append-drop f.write_pos (drop n f.scratch)))
          ∙ append_assoc x (newline ∷ []) (stale ++ junk)
          ∙ sym (append_assoc x (newline ∷ stale) junk)

      position : add64 f.write_pos n ≡ length (x ++ newline ∷ stale)
      position = omega (
        arith,
        small,
        fits,
        length-append x (newline ∷ []),
        length-append x (newline ∷ stale),
        length-take_of_le f.write_pos (drop n f.scratch)
            (omega (arith, small, length-drop n f.scratch)),
      )

  -- A loop that is to go past the end of the buffer reads past it, if nothing stops it before.
  scan_past_end :
      (k : ℕ) (todo past bytes : List ℕ) (i start : ℕ) (out : List Line)
      → bytes ≡ past ++ todo
      → i ≡ length past
      → IsPlain todo
      → length todo < k
      → (scan new_ptr k i start bytes out).0 ≡ fault
  unfolding scan
  scan_past_end zero todo past bytes i start out e ei q lt = elim lt [ ]
  scan_past_end (suc k) [] past bytes i start out e ei q lt =
      ground (arith, get_elem?_end past, append-nil past)
  scan_past_end (suc k) (c ∷ cs) past bytes i start out e ei q lt = ground (
    arith,
    q.0,
    get_elem?-append past c cs,
    scan_past_end k cs (past ++ c ∷ []) bytes (suc i) start out
        (e ∙ sym (append_assoc past (c ∷ []) cs)) (omega (arith, ei, length-append past (c ∷ [])))
        q.1,
  )

  -- A framer with something pending and 1024 bytes of room, its buffer below `2 ^ 63` bytes, that reads
  -- a chunk as large as its buffer without a newline: `OnData` reads past the end of the buffer.
  read_chunk_overread :
      (chunk : List ℕ) (f : LineFramer)
      → 0 < f.write_pos
      → f.write_pos + 1024 ≤ length f.scratch
      → length f.scratch < 2 ^ 63
      → length chunk ≡ length f.scratch
      → IsPlain chunk
      → (read_chunk fresh new_ptr chunk f).0 ≡ fault
  unfolding read_chunk on_data
  read_chunk_overread chunk f held room fits full plain =
      rw (prepare_read_room fresh f room (omega (arith, fits))) (
        scan_past_end (add64 f.write_pos (length chunk)) chunk []
          (chunk ++ drop (length chunk) f.scratch) 0 0 []
          (ap (λ bs. chunk ++ bs) (drop_all (length chunk) f.scratch (omega (arith, full)))
            ∙ append-nil chunk)
          refl plain (omega (arith, held, fits, full)))
