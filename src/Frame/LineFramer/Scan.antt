-- ===== src/Frame/LineFramer/Scan.antt =====
-- frame/simple_line_framer.h: the loop of `OnData`, read as a walk over the bytes themselves.
use mathlib.Core.List.{append_assoc}
use vectro.Common.{
  ℕ, suc, ◌+◌, ◌-◌, ◌≡◌, refl, sym, ap, ◌∙◌, true, false, some, List, [], ◌∷◌, ◌++◌, nat_beq,
  if◌then◌else◌, length, length-append, get_elem?, is_empty, take-append_left, drop-append_left,
  arith,
}
use vectro.Frame.RawBuffer.{ok, err, invalid_argument}
use vectro.Frame.LineFramer.{newline, Line, Outcome, returned, threw, slice, make_line, scan}

pub get_elem?-append :
    (xs : List ℕ) (y : ℕ) (ys : List ℕ) → get_elem? (xs ++ y ∷ ys) (length xs) ≡ some y
get_elem?-append [] y ys = refl
get_elem?-append (x ∷ xs) y ys = get_elem?-append xs y ys

module _ (new_ptr : ℕ → ℕ) where
  -- The message that a line becomes: a buffer of its length, which `operator delete` returns.
  abbrev pub line : List ℕ → Line
  line payload = record {
    buffer = record {
      data_ = some (new_ptr (length payload));
      size_ = length payload;
      deleter_ = some 0;
    };
    payload = payload;
  }

  -- A line is made of every payload but the empty one.
  make_line_lem :
      (payload : List ℕ)
      → make_line new_ptr payload
        ≡ (if is_empty payload then err invalid_argument else ok (line payload))
  unfolding make_line
  make_line_lem [] = refl
  make_line_lem (b ∷ bs) = ground arith

  -- The walk: `cur` holds the bytes since the last newline, and begins at `start`.
  unfoldable pub walk : List ℕ → List ℕ → ℕ → List Line → Outcome × ℕ
  walk cur [] start out = (returned out, start)
  walk cur (c ∷ cs) start out = elim (nat_beq c newline) [
    | true ↦ elim (is_empty cur) [
      | true ↦ (threw invalid_argument, start)
      | false ↦ walk [] cs (suc (start + length cur)) (out ++ line cur ∷ [])
    ]
    | false ↦ walk (cur ++ c ∷ []) cs start out
  ]

  slice_middle : (xs ys zs : List ℕ) → slice (xs ++ (ys ++ zs)) (length xs) (length ys) ≡ ys
  slice_middle xs ys zs = rw (drop-append_left xs (ys ++ zs)) (take-append_left ys zs)

  -- Where the loop stands: `past` is behind the last newline, `cur` since then, `rest` ahead.
  pub record IsAt (past cur rest bytes : List ℕ) (i start : ℕ) : Type 0 where
    pub layout : bytes ≡ past ++ (cur ++ rest)
    pub at_start : start ≡ length past
    pub at_index : i ≡ length past + length cur

  module _ (past cur : List ℕ) (c : ℕ) (rest bytes : List ℕ) (i start : ℕ) where
    IsAt-next : IsAt past cur (c ∷ rest) bytes i start → get_elem? bytes i ≡ some c
    IsAt-next p =
        rw (p.layout, p.at_index, ← length-append past cur, ← append_assoc past cur (c ∷ rest))
          (get_elem?-append (past ++ cur) c rest)

    IsAt-slice : IsAt past cur (c ∷ rest) bytes i start → slice bytes start (i - start) ≡ cur
    IsAt-slice p =
        let e : i - start ≡ length cur = omega (arith, p.at_start, p.at_index) in
        rw (e, p.layout, p.at_start) (slice_middle past cur (c ∷ rest))

    IsAt-byte :
        IsAt past cur (c ∷ rest) bytes i start → IsAt past (cur ++ c ∷ []) rest bytes (suc i) start
    IsAt-byte p = record {
      layout = p.layout ∙ ap (◌++◌ past) (sym (append_assoc cur (c ∷ []) rest));
      at_start = p.at_start;
      at_index = omega (arith, p.at_index, length-append cur (c ∷ []));
    }

    IsAt-newline :
        IsAt past cur (c ∷ rest) bytes i start
        → IsAt (past ++ (cur ++ c ∷ [])) [] rest bytes (suc i) (suc i)
    IsAt-newline p = record {
      layout =
          p.layout
          ∙ ap (◌++◌ past) (sym (append_assoc cur (c ∷ []) rest))
          ∙ sym (append_assoc past (cur ++ c ∷ []) rest);
      at_start = index;
      at_index = omega (arith, index);
    }
      where
        index : suc i ≡ length (past ++ (cur ++ c ∷ []))
        index =
            omega
              (arith, p.at_index, length-append past (cur ++ c ∷ []), length-append cur (c ∷ []))

  -- The loop over indices is the walk over what those indices hold.
  pub scan-walk :
      (todo past cur junk bytes : List ℕ) (i start : ℕ) (out : List Line)
      → IsAt past cur (todo ++ junk) bytes i start
      → scan new_ptr (length todo) i start bytes out ≡ walk cur todo start out
  unfolding scan walk
  scan-walk [] past cur junk bytes i start out p = refl
  scan-walk (c ∷ cs) past cur junk bytes i start out p = ground (
    arith,
    IsAt-next past cur c (cs ++ junk) bytes i start p,
    IsAt-slice past cur c (cs ++ junk) bytes i start p,
    make_line_lem cur,
    index,
    scan-walk cs (past ++ (cur ++ c ∷ [])) [] junk bytes (suc i) (suc i) (out ++ line cur ∷ [])
        (IsAt-newline past cur c (cs ++ junk) bytes i start p),
    scan-walk cs past (cur ++ c ∷ []) junk bytes (suc i) start out
        (IsAt-byte past cur c (cs ++ junk) bytes i start p),
  )
    where
      index : i ≡ start + length cur
      index = omega (arith, p.at_start, p.at_index)
