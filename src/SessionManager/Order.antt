-- ===== src/SessionManager/Order.antt =====
-- session_manager.h: the order in which the hash map is iterated.
use mathlib.Core.List
use mathlib.Core.List.{Perm}
use mathlib.Core.List.Perm
use vectro.Common.{
  ℕ, ◌≡◌, ◌∙◌, refl, ap, Bool, Option, none, some, List, [], ◌∷◌, map, nat_key, if◌then◌else◌,
}
use vectro.HashMap.{HashMap}
use vectro.HashMap.Order.{entries-Perm}
use vectro.SessionManager.{SessionManager, get, all, close_all, close}
use vectro.SessionManager.Laws.{close_calls, close_leaves}

module _ {S : Type 0} (hm : HashMap ℕ (Option S)) where
  open hm use {find, entries}

  -- The call that an entry gives rise to.
  abbrev call_of : Bool → ℕ × Option S → Option (S × Bool)
  call_of force (id, none) = none
  call_of force (id, some session) = some (session, force)

  close_all-filter_map :
      (force : Bool) (kvs : List (ℕ × Option S))
      → close_all hm force kvs ≡ List.filter_map (call_of force) kvs
  unfolding List.filter_map
  close_all-filter_map force [] = refl
  close_all-filter_map force ((id, none) ∷ kvs) = close_all-filter_map force kvs
  close_all-filter_map force ((id, some session) ∷ kvs) =
      ap (λ calls. (session, force) ∷ calls) (close_all-filter_map force kvs)

  -- `Close(force)` on each of the pointers that is not null.
  abbrev pub calls : Bool → List (Option S) → List (S × Bool)
  calls force [] = []
  calls force (none ∷ ps) = calls force ps
  calls force (some session ∷ ps) = (session, force) ∷ calls force ps

  calls-map :
      (force : Bool) (kvs : List (ℕ × Option S))
      → calls force (map (λ (kv : ℕ × Option S). kv.1) kvs) ≡ List.filter_map (call_of force) kvs
  unfolding List.filter_map
  calls-map force [] = refl
  calls-map force ((id, none) ∷ kvs) = calls-map force kvs
  calls-map force ((id, some session) ∷ kvs) =
      ap (λ calls. (session, force) ∷ calls) (calls-map force kvs)

  get_same : (j : ℕ) (m n : SessionManager hm) → find j m ≡ find j n → get hm j m ≡ get hm j n
  unfolding get
  get_same j m n h = rw (h, get) refl

  -- For two registries in which every id finds the same, up to the order in which the hash map is
  -- iterated: `All` answers the same sessions, and `Close` on the first calls `Close`, with the same
  -- `force`, on those sessions that `All` of the second answers and that are not null. After that, by
  -- force no id is found in the first, and a graceful close leaves it as the second is.
  pub close-Perm :
      (force : Bool) (m n : SessionManager hm)
      → ((id : ℕ) → find id m ≡ find id n)
      → Perm (all hm m) (all hm n)
        × Perm (close hm force m).1 (calls force (all hm n))
        × ((j : ℕ) → get hm j (close hm force m).0 ≡ (if force then none else get hm j n))
  unfolding all
  close-Perm force m n h =
      let same = entries-Perm hm m n h in
      (
        Perm.map (λ (kv : ℕ × Option S). kv.1) same,
        rw
            (
              close_calls hm force m,
              close_all-filter_map force (entries m),
              calls-map force (entries n),
            )
            (Perm.filter_map (call_of force) same),
        λ j.
            close_leaves hm force m j
            ∙ ap (λ found. if force then none else found) (get_same j m n (h j)),
      )
