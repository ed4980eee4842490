-- ===== src/SessionManager/Laws.antt =====
-- session_manager.h: what a lookup finds after each change, and which sessions a drain closes.
use vectro.Common.{
  ℕ, ◌≡◌, ◌⊎◌, inl, inr, refl, Bool, true, false, Option, none, some, List, [], ◌∷◌, length,
  nat_key, nat_beq, if◌then◌else◌, arith, Bool-cases, total,
}
use vectro.HashMap.{lookup, HashMap}
use vectro.SessionManager.{SessionManager, add, remove, get, close_all, close}

module _ {S : Type 0} (hm : HashMap ℕ (Option S)) where
  open hm use {
    find, empty, emplace, erase, entries, find-emplace, find-erase, find-entries, entries-empty,
    entries-unique,
  }

  -- A lookup after an add finds, under the id, the session that was there before or else the new one,
  -- and under any other id what it found before.
  pub get-add :
      (j id : ℕ) (session : Option S) (m : SessionManager hm)
      → get hm j (add hm id session m) ≡ (
          if nat_beq id j
          then (elim (find id m) [ none ↦ session | some old ↦ old ])
          else get hm j m)
  unfolding get add
  get-add j id session m = ground (arith, find-emplace j id session m)

  -- A lookup after an add and a removal under one id finds nothing under that id, and under any other
  -- what it found before.
  get-remove-add :
      (j id : ℕ) (session : Option S) (m : SessionManager hm)
      → get hm j (remove hm id (add hm id session m)) ≡ (if nat_beq id j then none else get hm j m)
  unfolding get add remove
  get-remove-add j id session m =
      ground (arith, find-erase j id (emplace id session m), find-emplace j id session m)

  -- How many sessions the entries hold.
  abbrev present : ℕ × Option S → ℕ
  present (id, none) = 0
  present (id, some session) = 1

  -- A call of `Close` on this session stands in the list.
  abbrev pub IsCalled : S → Bool → List (S × Bool) → Type 0
  IsCalled session force [] = ⊥
  IsCalled session force ((s, f) ∷ calls) =
      ((s ≡ session) × (f ≡ force)) ⊎ IsCalled session force calls

  close_all-IsCalled :
      (force : Bool) (id : ℕ) (session : S) (kvs : List (ℕ × Option S))
      → lookup id kvs ≡ some (some session)
      → IsCalled session force (close_all hm force kvs)
  close_all-IsCalled force id session [] e = cc
  close_all-IsCalled force id session ((j, none) ∷ kvs) e =
      close_all-IsCalled force id session kvs (ground (arith, e))
  close_all-IsCalled force id session ((j, some s) ∷ kvs) e = elim (Bool-cases (nat_beq j id)) [
    | inl here ↦ inl (ground (arith, e, here), refl)
    | inr there ↦ inr (close_all-IsCalled force id session kvs (ground (arith, e, there)))
  ]

  length-close_all :
      (force : Bool) (kvs : List (ℕ × Option S))
      → length (close_all hm force kvs) ≡ total present kvs
  length-close_all force [] = refl
  length-close_all force ((j, none) ∷ kvs) = omega (arith, length-close_all force kvs)
  length-close_all force ((j, some s) ∷ kvs) = omega (arith, length-close_all force kvs)

  pub close_calls :
      (force : Bool) (m : SessionManager hm) → (close hm force m).1 ≡ close_all hm force (entries m)
  unfolding close
  close_calls true m = refl
  close_calls false m = refl

  pub close_leaves :
      (force : Bool) (m : SessionManager hm) (j : ℕ)
      → get hm j (close hm force m).0 ≡ (if force then none else get hm j m)
  unfolding close get
  close_leaves true m j = ground (arith, find-entries j empty, entries-empty)
  close_leaves false m j = refl

  -- For a session that is registered, both kinds of `Close`: its own `Close` is called with the same
  -- `force`, there are as many calls as registered sessions, and by force a lookup finds nothing
  -- afterwards, while a graceful close leaves every lookup as it was.
  pub close_lem :
      (force : Bool) (m : SessionManager hm) (id : ℕ) (session : S)
      → get hm id m ≡ some session
      → IsCalled session force (close hm force m).1
        × (length (close hm force m).1 ≡ total present (entries m))
        × ((j : ℕ) → get hm j (close hm force m).0 ≡ (if force then none else get hm j m))
  unfolding get
  close_lem force m id session e = (
    rw (close_calls force m)
        (close_all-IsCalled force id session (entries m) (ground (arith, e, find-entries id m))),
    rw (close_calls force m) (length-close_all force (entries m)),
    λ j. close_leaves force m j,
  )
