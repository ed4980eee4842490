-- ===== src/Tcp/Acceptor/Ids.antt =====
-- tcp/tcp_acceptor_loop.h: the ids and the remotes of the sessions that the loop starts.

use vectro.Common.{
  ℕ, suc, ◌+◌, ◌^◌, ◌<◌, ◌≡◌, refl, sym, ap, ◌∙◌, Bool, true, Option, List, [], ◌∷◌, ◌++◌, map,
  length, All, All-append, All-weaken, arith,
}
use mathlib.Core.List.{map-append}
use vectro.Tcp.Acceptor.{Started, AcceptorLoop, Action, create, passes, step, run}
use vectro.Tcp.Acceptor.Sessions.{Change, kept, taken, added, step-Steps}

-- Each number is below those after it.
abbrev pub IsIncreasing : List ℕ → Type 0
IsIncreasing [] = Unit
IsIncreasing (n ∷ ns) = All (λ (m : ℕ). n < m) ns × IsIncreasing ns

IsIncreasing-append :
    (ns : List ℕ) (n : ℕ)
    → IsIncreasing ns
    → All (λ (m : ℕ). m < n) ns
    → IsIncreasing (ns ++ n ∷ [])
IsIncreasing-append [] n h b = (tt, tt)
IsIncreasing-append (m ∷ ns) n h b =
    (All-append (λ (k : ℕ). m < k) ns (n ∷ []) h.0 (b.0, tt), IsIncreasing-append ns n h.1 b.1)

module _ {E : Type 0} where
  abbrev pub ids : AcceptorLoop E → List ℕ
  ids s = map (λ (x : Started E). x.id) s.sessions

  -- What the filter and the port say of a session.
  abbrev pub IsAdmitted : ℕ → Option (E → Bool) → Started E → Type 0
  IsAdmitted port filter x = (passes filter x.remote ≡ true) × (x.port ≡ port)

  record IsLogged (port : ℕ) (filter : Option (E → Bool)) (k : ℕ) (s : AcceptorLoop E)
      : Type 0 where
    same_filter : s.filter ≡ filter
    same_port : s.port ≡ port
    few : s.id_seq + k < 2 ^ 64
    below : All (λ (n : ℕ). n < s.id_seq) (ids s)
    increasing : IsIncreasing (ids s)
    admitted : All (IsAdmitted port filter) s.sessions

  Change-IsLogged :
      (port : ℕ) (filter : Option (E → Bool)) (k : ℕ) (s t : AcceptorLoop E)
      → t.filter ≡ s.filter
      → t.port ≡ s.port
      → Change s t
      → IsLogged port filter (suc k) s
      → IsLogged port filter k t
  Change-IsLogged port filter k s t ef ep (kept e i) h = record {
    same_filter = ef ∙ h.same_filter;
    same_port = ep ∙ h.same_port;
    few = omega (arith, i, h.few);
    below = rw (e, i) h.below;
    increasing = rw e h.increasing;
    admitted = rw e h.admitted;
  }
  Change-IsLogged port filter k s t ef ep (taken e i) h =
      let next : t.id_seq ≡ suc s.id_seq = omega (arith, i, h.few) in
      record {
        same_filter = ef ∙ h.same_filter;
        same_port = ep ∙ h.same_port;
        few = omega (arith, next, h.few);
        below = rw (e, next) (All-weaken (λ n lt. omega (arith, lt)) (ids s) h.below);
        increasing = rw e h.increasing;
        admitted = rw e h.admitted;
      }
  Change-IsLogged port filter k s t ef ep (added r p st dr e i) h =
      let next : t.id_seq ≡ suc s.id_seq = omega (arith, i, h.few) in
      let x : Started E = record { id = s.id_seq; remote = r; port = s.port } in
      let all : ids t ≡ ids s ++ s.id_seq ∷ [] =
        ap (map (λ (y : Started E). y.id)) e
        ∙ map-append (λ (y : Started E). y.id) s.sessions (x ∷ []) in
      record {
        same_filter = ef ∙ h.same_filter;
        same_port = ep ∙ h.same_port;
        few = omega (arith, next, h.few);
        below =
            rw (all, next)
              (All-append (λ (n : ℕ). n < suc s.id_seq) (ids s) (s.id_seq ∷ [])
                (All-weaken (λ n lt. omega (arith, lt)) (ids s) h.below) (omega arith, tt));
        increasing = rw all (IsIncreasing-append (ids s) s.id_seq h.increasing h.below);
        admitted = rw e (
            All-append (IsAdmitted port filter) s.sessions (x ∷ []) h.admitted
              ((ap (λ f. passes f r) (sym h.same_filter) ∙ p, h.same_port), tt));
      }

  run-IsLogged :
      (port : ℕ) (filter : Option (E → Bool)) (actions : List (Action E)) (s : AcceptorLoop E)
      → IsLogged port filter (length actions) s
      → IsLogged port filter 0 (run s actions)
  unfolding run
  run-IsLogged port filter [] s h = h
  run-IsLogged port filter (a ∷ actions) s h =
      let steps = step-Steps s a in
      run-IsLogged port filter actions (step s a) (
        Change-IsLogged port filter (length actions) s (step s a) steps.filter steps.port
          steps.change h)

  -- In any run from the constructor of fewer than `2 ^ 64 - 1` steps, with other loops taking ids from
  -- the same counter: the ids of the sessions that the loop starts increase, and each session has the
  -- loop's port and a remote that the filter passes.
  pub run-ids :
      (port : ℕ) (filter : Option (E → Bool)) (actions : List (Action E))
      → length actions + 1 < 2 ^ 64
      → IsIncreasing (ids (run (create port filter) actions))
        × All (IsAdmitted port filter) (run (create port filter) actions).sessions
  run-ids port filter actions few =
      let logged = run-IsLogged port filter actions (create port filter) (record {
        same_filter = refl;
        same_port = refl;
        few = omega (arith, few);
        below = tt;
        increasing = tt;
        admitted = tt;
      }) in
      (logged.increasing, logged.admitted)
