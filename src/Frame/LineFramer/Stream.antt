-- ===== src/Frame/LineFramer/Stream.antt =====
-- frame/simple_line_framer.h under a reader that writes each chunk behind what is pending: the
-- messages of a stream of bytes that arrives in any chunks.
use mathlib.Core.List.{append_assoc, append-nil, map-append}
use vectro.Common.{
  ℕ, ◌+◌, ◌^◌, ◌≤◌, ◌<◌, ◌≡◌, refl, sym, ap, ◌∙◌, List, [], ◌∷◌, ◌++◌, map, length, length-append,
  length-drop, take, drop, length-take_of_le, arith,
}
use vectro.Frame.LineFramer.{
  Line, LineFramer, Outcome, returned, threw, fault, add64, scan, keep_rest, on_data,
}
use vectro.Frame.LineFramer.Scan.{line}
use vectro.Frame.LineFramer.Lines.{
  encode, encode-append, IsPlain, AreLines, pending, on_data-encode,
}
use vectro.Frame.LineFramer.Cuts.{split, IsPlain-encode}

-- The chunk is written behind what is pending.
abbrev pub place : List ℕ → LineFramer → LineFramer
place chunk f = record f {
  scratch = take f.write_pos f.scratch ++ (chunk ++ drop (f.write_pos + length chunk) f.scratch);
}

abbrev prepend : List Line → Outcome → Outcome
prepend out (returned more) = returned (out ++ more)
prepend out o = o

abbrev concat : List (List ℕ) → List ℕ
concat [] = []
concat (c ∷ cs) = c ++ concat cs

-- A read that returns is followed by the others.
abbrev then_read : Outcome → LineFramer → Outcome × LineFramer → Outcome × LineFramer
then_read (returned out) f rest = (prepend out rest.0, rest.1)
then_read o f rest = (o, f)

-- What `OnData` returns for the chunks one after another, up to the first that fails.
pub feed : (ℕ → ℕ) → List (List ℕ) → LineFramer → Outcome × LineFramer
feed new_ptr [] f = (returned [], f)
feed new_ptr (c ∷ cs) f =
    let r = on_data new_ptr (length c) (place c f) in then_read r.0 r.1 (feed new_ptr cs r.1)

module _ (new_ptr : ℕ → ℕ) where
  keep_rest_lem :
      (r : Outcome × ℕ) (f : LineFramer) → (keep_rest new_ptr r f).write_pos ≤ f.write_pos
  keep_rest_lem (returned out, start) f = ground arith
  keep_rest_lem (threw e, start) f = omega arith
  keep_rest_lem (fault, start) f = omega arith

  on_data-write_pos :
      (n : ℕ) (f : LineFramer) → (on_data new_ptr n f).1.write_pos ≤ add64 f.write_pos n
  unfolding on_data
  on_data-write_pos n f =
      let g = record f { write_pos = add64 f.write_pos n } in
      keep_rest_lem (scan new_ptr g.write_pos 0 0 g.scratch []) g

  -- One chunk, whose bytes with those pending are whole lines and the beginning of one more.
  on_data-place :
      (whole : List (List ℕ)) (begun c : List ℕ) (f : LineFramer)
      → f.write_pos + length c ≤ length f.scratch
      → length f.scratch < 2 ^ 64
      → pending f ++ c ≡ encode whole begun
      → AreLines whole
      → IsPlain begun
      → ((on_data new_ptr (length c) (place c f)).0 ≡ returned (map (line new_ptr) whole))
        × (pending (on_data new_ptr (length c) (place c f)).1 ≡ begun)
        × (length (on_data new_ptr (length c) (place c f)).1.scratch ≡ length f.scratch)
        × ((on_data new_ptr (length c) (place c f)).1.write_pos ≤ length f.scratch)
  on_data-place whole begun c f room fits e p q =
      let junk = drop (f.write_pos + length c) f.scratch in
      let held = length-take_of_le f.write_pos f.scratch (omega (arith, room)) in
      let size : length (place c f).scratch ≡ length f.scratch = omega (
        arith,
        room,
        held,
        length-append (pending f) (c ++ junk),
        length-append c junk,
        length-drop (f.write_pos + length c) f.scratch,
      ) in
      let done =
        on_data-encode new_ptr whole begun junk (length c) (place c f)
          (sym (append_assoc (pending f) c junk) ∙ ap (λ bs. bs ++ junk) e)
          (omega (arith, held, ap length e, length-append (pending f) c))
          (omega (arith, size, fits)) p q in
      (
        done.0,
        done.1,
        done.2 ∙ size,
        omega (arith, room, fits, on_data-write_pos (length c) (place c f)),
      )

  -- For a framer with a buffer below `2 ^ 64` bytes, `write_pos_` within it and no newline pending, and
  -- any chunks, each written behind what is pending, that make up with it whole lines, each non-empty
  -- and without a newline, and the beginning of one more, which fit the buffer: the calls of `OnData`
  -- together return one message for each line, in order, and the beginning stays pending, however the
  -- bytes are cut into chunks.
  pub feed-encode :
      (cs : List (List ℕ)) (ls : List (List ℕ)) (rest : List ℕ) (f : LineFramer)
      → f.write_pos ≤ length f.scratch
      → length f.scratch < 2 ^ 64
      → length (encode ls rest) ≤ length f.scratch
      → IsPlain (pending f)
      → pending f ++ concat cs ≡ encode ls rest
      → AreLines ls
      → IsPlain rest
      → ((feed new_ptr cs f).0 ≡ returned (map (line new_ptr) ls))
        × (pending (feed new_ptr cs f).1 ≡ rest)
  unfolding feed
  feed-encode [] ls rest f within_f fits small plain e p q =
      let all : pending f ≡ encode ls rest = sym (append-nil (pending f)) ∙ e in
      let nil : ls ≡ [] = IsPlain-encode ls rest (rw (← all) plain) in
      (rw nil refl, all ∙ rw nil refl)
  feed-encode (c ∷ cs) ls rest f within_f fits small plain e p q =
      let s =
        split ls rest (pending f ++ c) (concat cs) (append_assoc (pending f) c (concat cs) ∙ e) p
          q in
      let held = length-take_of_le f.write_pos f.scratch within_f in
      let total = ap length (append_assoc (pending f) c (concat cs) ∙ e) in
      let one =
        on_data-place s.whole s.begun c f
          (omega (
            arith,
            held,
            total,
            small,
            length-append (pending f) c,
            length-append (pending f ++ c) (concat cs),
          ))
          fits s.now s.whole_AreLines s.begun_IsPlain in
      let g = (on_data new_ptr (length c) (place c f)).1 in
      let later =
        feed-encode cs s.later rest g (omega (arith, one.3, one.2)) (omega (arith, one.2, fits))
          (omega (
            arith,
            one.2,
            total,
            small,
            ap length s.now,
            ap length s.then_,
            ap length (encode-append new_ptr s.whole s.begun),
            length-append (encode s.whole []) s.begun,
            length-append s.begun (concat cs),
            length-append (pending f ++ c) (concat cs),
          ))
          (rw one.1 s.begun_IsPlain) (ap (λ bs. bs ++ concat cs) one.1 ∙ s.then_) s.later_AreLines
          q in
      (
        ap (λ o. (then_read o g (feed new_ptr cs g)).0) one.0
            ∙ ap (prepend (map (line new_ptr) s.whole)) later.0
            ∙ ap returned
                (sym (map-append (line new_ptr) s.whole s.later) ∙ ap (map (line new_ptr)) s.lines),
        ap (λ o. pending (then_read o g (feed new_ptr cs g)).1) one.0 ∙ later.1,
      )
