-- ===== src/Session/Framed.antt =====
-- session.h over frame/simple_line_framer.h: a session that reads through a line framer, with
-- PrepareRead, the socket and OnData as one read. An exception of OnData leaves the session's handler.
use mathlib.Core.List.{append_assoc, append-nil, map-append}
use vectro.Common.{
  ℕ, zero, suc, All, ◌^◌, ◌≤◌, ◌<◌, ◌≡◌, ◌∙◌, refl, sym, ap, true, false, Option, none, some, List,
  [], ◌∷◌, ◌++◌, map, length, take, arith,
}
use vectro.Frame.LineFramer.{LineFramer, Line, Outcome, returned, threw, fault, read_chunk}
use vectro.Frame.LineFramer.Lines.{encode, AreLines}
use vectro.Frame.LineFramer.Scan.{line}
use vectro.Frame.LineFramer.Chunks.{read_chunk-encode}
use vectro.Session.{messages, Session, reads, step}

pub record Connection (B : Type 0) : Type 0 where
  pub session : Session B Line
  pub framer : LineFramer

abbrev as_messages : Outcome → Option (List Line)
as_messages (returned ms) = some ms
as_messages (threw e) = none
as_messages fault = none

-- Nothing is pending, and the buffer has room.
pub record IsFree (f : LineFramer) : Type 0 where
  pub start : f.write_pos ≡ 0
  pub room : 1024 ≤ length f.scratch
  pub size : length f.scratch < 2 ^ 64

-- Lines that one read of `n` bytes takes.
abbrev Fits : ℕ → List (List ℕ) → Type 0
Fits n ls = AreLines ls × (length (encode ls []) ≤ n)

-- The chunks that carry the lines, and the lines.
abbrev pub chunks_of : List (List (List ℕ)) → List (List ℕ)
chunks_of = map (λ ls. encode ls [])

abbrev pub lines_of : List (List (List ℕ)) → List (List ℕ)
lines_of [] = []
lines_of (ls ∷ batches) = ls ++ lines_of batches

take_none : {A : Type 0} (n : ℕ) (xs : List A) → take n xs ≡ [] → 1 ≤ length xs → n ≡ 0
take_none zero xs e lt = refl
take_none (suc n) [] e lt = absurd (omega (arith, lt))
take_none (suc n) (x ∷ xs) e lt = absurd (omega (arith, ap length e))

module _ {B : Type 0} where
  pub record IsReading (s : Session B Line) : Type 0 where
    pub open_ : s.shutdown_in_progress ≡ false
    pub framed : s.framer ≡ true
    pub handled : s.on_message ≡ true
    pub reading : 1 ≤ s.reading
    pub sound : s.fault ≡ false

  reads-IsReading :
      (s : Session B Line) (ms : List Line)
      → IsReading s
      → IsReading (step s (reads false (some ms)))
        × ((step s (reads false (some ms))).trace ≡ s.trace ++ map messages ms)
  unfolding step
  reads-IsReading s ms i = ground (arith, i.open_, i.framed, i.handled, i.reading, i.sound)

module _ {B : Type 0} (fresh : ℕ → List ℕ) (new_ptr : ℕ → ℕ) where
  -- A read that completes with the bytes of a chunk.
  receive_chunk : List ℕ → Connection B → Connection B
  receive_chunk chunk c =
      let r = read_chunk fresh new_ptr chunk c.framer in
      record { session = step c.session (reads false (as_messages r.0)); framer = r.1 }

  pub receive_all : List (List ℕ) → Connection B → Connection B
  unfolding receive_chunk
  receive_all [] c = c
  receive_all (chunk ∷ chunks) c = receive_all chunks (receive_chunk chunk c)

  -- One read of whole lines.
  receive_chunk-encode :
      (ls : List (List ℕ)) (c : Connection B)
      → IsReading c.session
      → IsFree c.framer
      → Fits (length c.framer.scratch) ls
      → (let d = receive_chunk (encode ls []) c in
          IsReading d.session
          × IsFree d.framer
          × (length d.framer.scratch ≡ length c.framer.scratch)
          × (d.session.trace ≡ c.session.trace ++ map messages (map (line new_ptr) ls)))
  unfolding receive_chunk
  receive_chunk-encode ls c i free p =
      let (out, rest, size) =
        read_chunk-encode fresh new_ptr ls [] c.framer free.start free.room free.size p.1 p.0 tt in
      let next = reads-IsReading c.session (map (line new_ptr) ls) i in
      let f = (read_chunk fresh new_ptr (encode ls []) c.framer).1 in
      (
        rw out next.0,
        record {
          start = take_none f.write_pos f.scratch rest (omega (arith, size, free.room));
          room = omega (arith, size, free.room);
          size = omega (arith, size, free.size);
        },
        size,
        rw out next.1,
      )

  -- A session that reads, with a message handler, through a line framer with nothing pending: whole
  -- lines, each non-empty and without a newline, in chunks that each fit the framer's buffer, are given
  -- to the handler as one message each, in order, and the session reads on.
  pub receive_all-trace :
      (batches : List (List (List ℕ))) (n : ℕ) (c : Connection B)
      → IsReading c.session
      → IsFree c.framer
      → length c.framer.scratch ≡ n
      → All (Fits n) batches
      → (let d = receive_all (chunks_of batches) c in
          IsReading d.session
          × (d.session.trace
              ≡ c.session.trace ++ map messages (map (line new_ptr) (lines_of batches))))
  unfolding receive_all
  receive_all-trace [] n c i free e p = (i, sym (append-nil c.session.trace))
  receive_all-trace (ls ∷ batches) n c i free e p =
      let (i2, free2, size, one) = receive_chunk-encode ls c i free (rw e p.0) in
      let (i3, rest) =
        receive_all-trace batches n (receive_chunk (encode ls []) c) i2 free2 (size ∙ e) p.1 in
      (
        i3,
        rest
            ∙ ap (λ evs. evs ++ map messages (map (line new_ptr) (lines_of batches))) one
            ∙ append_assoc c.session.trace (map messages (map (line new_ptr) ls))
                (map messages (map (line new_ptr) (lines_of batches)))
            ∙ ap (λ evs. c.session.trace ++ evs)
                (sym (
                    map-append messages (map (line new_ptr) ls)
                      (map (line new_ptr) (lines_of batches)))
                  ∙ ap (map messages) (sym (map-append (line new_ptr) ls (lines_of batches)))),
      )
