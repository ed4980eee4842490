-- ===== src/HashMap.antt =====
-- absl::node_hash_map, which plugin/plugin_bundle.h, session_manager.h, channel.h, tcp/tcp_server.h
-- and tcp/tcp_client.h use and the repository does not hold: an interface of the operations that
-- the code calls, with the behaviour that the library documents for them. The iteration order is
-- left open: `entries` may list the pairs in any order.
pub mod Assoc
pub mod Order
use mathlib.Core.Option
use vectro.Common.{
  ℕ, ◌≡◌, Bool, true, false, Option, none, some, List, [], ◌∷◌, map, Key, ◌==◌, if◌then◌else◌,
}

module _ {K : Type 0} ⦃e : Key K⦄ where
  -- The first value that a list of pairs holds for a key.
  abbrev pub lookup : {V : Type 0} → K → List (K × V) → Option V
  lookup k [] = none
  lookup k ((j, v) ∷ m) = if j == k then some v else lookup k m

  -- No key stands twice.
  abbrev pub HasUniqueKeys : {V : Type 0} → List (K × V) → Type 0
  HasUniqueKeys [] = Unit
  HasUniqueKeys ((j, v) ∷ m) = (lookup j m ≡ none) × HasUniqueKeys m

pub record HashMap (K V : Type 0) ⦃e : Key K⦄ : Type 1 where
  pub Map : Type 0
  pub empty : Map
  -- `find`, with `none` for `end()`
  pub find : K → Map → Option V
  -- `m[k] = v`
  pub assign : K → V → Map → Map
  -- `insert({k, v})` and `emplace(k, v)`, which leave a key alone that is there
  pub emplace : K → V → Map → Map
  pub erase : K → Map → Map
  -- what iteration visits
  pub entries : Map → List (K × V)
  pub entries-empty : entries empty ≡ []
  pub find-assign :
      (j k : K) (v : V) (m : Map) → find j (assign k v m) ≡ (if k == j then some v else find j m)
  pub find-emplace :
      (j k : K) (v : V) (m : Map)
      → find j (emplace k v m) ≡ (if k == j then some (Option.get_or (find k m) v) else find j m)
  pub find-erase : (j k : K) (m : Map) → find j (erase k m) ≡ (if k == j then none else find j m)
  pub find-entries : (k : K) (m : Map) → find k m ≡ lookup k (entries m)
  pub entries-unique : (m : Map) → HasUniqueKeys (entries m)
