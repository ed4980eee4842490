-- ===== src/Frame/LineFramer/Cuts.antt =====
-- frame/simple_line_framer.h: a stream of bytes cut anywhere, as whole lines and the beginning of one.

use vectro.Common.{ℕ, ◌≡◌, refl, ap, ◌∙◌, List, [], ◌∷◌, ◌++◌, arith}
use vectro.Frame.LineFramer.{newline}
use vectro.Frame.LineFramer.Lines.{encode, IsPlain, AreLines}

IsPlain-append : (xs ys : List ℕ) → IsPlain (xs ++ ys) → IsPlain xs
IsPlain-append [] ys p = tt
IsPlain-append (x ∷ xs) ys p = (p.0, IsPlain-append xs ys p.1)

-- The bytes `x` end in the line `l`, or go past its newline.
pub data Cut (l x d more : List ℕ) : Type 0 where
  within : (y : List ℕ) → x ++ y ≡ l → Cut l x d more
  past : (x' : List ℕ) → x ≡ l ++ newline ∷ x' → x' ++ d ≡ more → Cut l x d more

pub cut : (l x d more : List ℕ) → x ++ d ≡ l ++ newline ∷ more → Cut l x d more
cut l [] d more e = within l refl
cut [] (c ∷ x) d more e = past x (ground (arith, e)) (ground (arith, e))
cut (b ∷ l) (c ∷ x) d more e = elim (cut l x d more (ground (arith, e))) [
  | within y e' ↦ within y (ground (arith, e, e'))
  | past x' e' e'' ↦ past x' (ground (arith, e, e')) e''
]

-- What the bytes `x` hold of the lines `ls` and the unfinished line `rest`, with `d` to come.
pub record Split (ls : List (List ℕ)) (rest x d : List ℕ) : Type 0 where
  pub whole : List (List ℕ)
  pub begun : List ℕ
  pub later : List (List ℕ)
  pub lines : whole ++ later ≡ ls
  pub now : x ≡ encode whole begun
  pub then_ : begun ++ d ≡ encode later rest
  pub whole_AreLines : AreLines whole
  pub later_AreLines : AreLines later
  pub begun_IsPlain : IsPlain begun

pub split :
    (ls : List (List ℕ)) (rest x d : List ℕ)
    → x ++ d ≡ encode ls rest
    → AreLines ls
    → IsPlain rest
    → Split ls rest x d
split [] rest x d e p q = record {
  whole = [];
  begun = x;
  later = [];
  lines = refl;
  now = refl;
  then_ = e;
  whole_AreLines = tt;
  later_AreLines = tt;
  begun_IsPlain = IsPlain-append x d (rw e q);
}
split (l ∷ ls) rest x d e p q = elim (cut l x d (encode ls rest) e) [
  | within y e' ↦ record {
    whole = [];
    begun = x;
    later = l ∷ ls;
    lines = refl;
    now = refl;
    then_ = e;
    whole_AreLines = tt;
    later_AreLines = p;
    begun_IsPlain = IsPlain-append x y (rw e' p.1);
  }
  | past x' e' e'' ↦
      let s = split ls rest x' d e'' p.2 q in
      record {
        whole = l ∷ s.whole;
        begun = s.begun;
        later = s.later;
        lines = ap (λ ks. l ∷ ks) s.lines;
        now = e' ∙ ap (λ bs. l ++ newline ∷ bs) s.now;
        then_ = s.then_;
        whole_AreLines = (p.0, p.1, s.whole_AreLines);
        later_AreLines = s.later_AreLines;
        begun_IsPlain = s.begun_IsPlain;
      }
]

not-IsPlain-newline : (xs ys : List ℕ) → ¬ (IsPlain (xs ++ newline ∷ ys))
not-IsPlain-newline [] ys p = p.0 refl
not-IsPlain-newline (x ∷ xs) ys p = not-IsPlain-newline xs ys p.1

pub IsPlain-encode : (ls : List (List ℕ)) (rest : List ℕ) → IsPlain (encode ls rest) → ls ≡ []
IsPlain-encode [] rest p = refl
IsPlain-encode (l ∷ ls) rest p = absurd (not-IsPlain-newline l (encode ls rest) p)
