-- ===== src/SessionManager.antt =====
-- session_manager.h: the registry of the active sessions. Each method holds the one lock, so it is
-- one step. A session pointer is an `Option`, with `none` for nullptr; `S` is what it points to. A
-- call of a session's `Close` is recorded as the pair of the session and `force`. The hash map is a
-- parameter.
pub mod Laws
pub mod Sessions
pub mod Order
pub mod Tests
use vectro.Common.{ℕ, Bool, true, false, Option, none, some, List, [], ◌∷◌, map, length, nat_key}
use vectro.HashMap.{HashMap}

module _ {S : Type 0} (hm : HashMap ℕ (Option S)) where
  open hm use {Map, empty, find, emplace, erase, entries}

  abbrev pub SessionManager : Type 0
  SessionManager = Map

  pub add : ℕ → Option S → SessionManager → SessionManager
  add id session m = emplace id session m

  pub remove : ℕ → SessionManager → SessionManager
  remove id m = erase id m

  pub get : ℕ → SessionManager → Option S
  get id m = elim (find id m) [ none ↦ none | some session ↦ session ]

  abbrev pointers : List (ℕ × Option S) → List (Option S)
  pointers = map (λ (kv : ℕ × Option S). kv.1)

  -- `All`, and what `ForEach` calls its function with
  pub all : SessionManager → List (Option S)
  all m = pointers (entries m)

  pub count : SessionManager → ℕ
  count m = length (entries m)

  -- The loop of the two drains: `if (session) session->Close(force)`.
  abbrev pub close_all : Bool → List (ℕ × Option S) → List (S × Bool)
  close_all force [] = []
  close_all force ((id, none) ∷ kvs) = close_all force kvs
  close_all force ((id, some session) ∷ kvs) = (session, force) ∷ close_all force kvs

  drain_graceful : SessionManager → SessionManager × List (S × Bool)
  drain_graceful m = (m, close_all false (entries m))

  drain_force : SessionManager → SessionManager × List (S × Bool)
  drain_force m = (empty, close_all true (entries m))

  pub close : Bool → SessionManager → SessionManager × List (S × Bool)
  unfolding drain_graceful drain_force
  close true m = drain_force m
  close false m = drain_graceful m
