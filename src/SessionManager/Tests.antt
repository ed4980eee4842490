-- ===== src/SessionManager/Tests.antt =====
-- session_manager.h: a registry over lists of pairs, and its theorems at it.
use vectro.Common.{
  ℕ, ◌≡◌, refl, true, false, arith, List, map, get_elem?, Option, none, some, [], ◌∷◌, nat_key,
}
use vectro.HashMap.{HashMap}
use vectro.HashMap.Assoc.{assoc_map}
use vectro.SessionManager.{SessionManager, add, get, all, count, close}
use mathlib.Core.List.{Perm}
use vectro.SessionManager.Order.{calls, close-Perm}
use vectro.SessionManager.Sessions.{close_each, close_sessions, close_sessions-registered}
use vectro.Session.{Session, Peer, create, starts, sends, run, step}
use vectro.Session

-- A session is a number.
abbrev registry : HashMap ℕ (Option ℕ)
registry = assoc_map ℕ (Option ℕ)

abbrev two : SessionManager registry
two = add registry 2 (some 20) (add registry 1 (some 10) (HashMap.empty registry))

-- A second session under an id is not taken.
add_twice : get registry 1 (add registry 1 (some 11) two) ≡ some 10
unfolding add get
add_twice = refl

snapshot : (all registry two ≡ some 10 ∷ some 20 ∷ []) × (count registry two ≡ 2)
unfolding add all count
snapshot = (refl, refl)

-- Two sessions, of which the second has a write outstanding and one waiting.
abbrev peer : Peer
peer = record { id = 2; remote_ip = "10.0.0.2"; remote_port = 40001; local_port = 9000 }

abbrev busy : Session ℕ ℕ
busy = run create (starts peer true true ∷ sends true (some 5) ∷ sends true (some 6) ∷ [])

abbrev store : List (Session ℕ ℕ)
store = create ∷ busy ∷ []

abbrev pointers : SessionManager registry
pointers = add registry 2 (some 1) (add registry 1 (some 0) (HashMap.empty registry))

-- A graceful close closes the first at once and waits for the second.
graceful_sessions :
    map (λ (s : Session ℕ ℕ). s.socket_open) (close_sessions registry false pointers store).1
    ≡ false ∷ true ∷ []
unfolding add close close_each run step Session.close
graceful_sessions = refl

close_sessions-registered_example :
    (get_elem? (close_sessions registry true pointers store).1 1 ≡ some (Session.close true busy))
    × ((j : ℕ) → get registry j (close_sessions registry true pointers store).0 ≡ none)
unfolding add get run step
close_sessions-registered_example =
    close_sessions-registered registry true pointers store 2 1 busy refl refl refl

-- The same sessions, added in the other order.
abbrev two_reversed : SessionManager registry
two_reversed = add registry 1 (some 10) (add registry 2 (some 20) (HashMap.empty registry))

same_finds : (id : ℕ) → registry.find id two ≡ registry.find id two_reversed
unfolding add
same_finds id = ground arith

close-Perm_example :
    Perm (all registry two) (all registry two_reversed)
    × Perm (close registry true two).1 (calls registry true (all registry two_reversed))
    × ((j : ℕ) → get registry j (close registry true two).0 ≡ none)
close-Perm_example = close-Perm registry true two two_reversed same_finds
