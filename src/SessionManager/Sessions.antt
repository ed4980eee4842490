-- ===== src/SessionManager/Sessions.antt =====
-- session_manager.h over session.h: the registry holds pointers to sessions, which stand in a store;
-- a call of a session's `Close` changes the session there. `executor_` runs what is dispatched at once.
use vectro.Common.{
  ℕ, ◌≡◌, ◌∙◌, ◌⊎◌, inl, inr, refl, ap, Bool, false, Option, none, some, List, [], ◌∷◌, nat_key,
  nat_beq, get_elem?, set, get_elem?-set, get_elem?-set_other, arith, Option-cases, Bool-cases,
  if◌then◌else◌,
}
use vectro.HashMap.{HashMap}
use vectro.Session.{Session, close}
use vectro.Session.Closing.{close-close}
use vectro.SessionManager.{SessionManager, get, close_all, close as close_registry}
use vectro.SessionManager.Laws.{IsCalled, close_calls, close_lem}

-- Every call has the same `force`.
abbrev HasForce : Bool → List (ℕ × Bool) → Type 0
HasForce force [] = Unit
HasForce force ((p, f) ∷ calls) = (f ≡ force) × HasForce force calls

place-cases : (q p : ℕ) → (q ≡ p) ⊎ (q ≡ p → ⊥)
place-cases q p = elim (Bool-cases (nat_beq q p)) [
  | inl same ↦ inl (ground (arith, same))
  | inr other ↦ inr (λ e. ground (arith, other, e))
]

module _ (hm : HashMap ℕ (Option ℕ)) where
  close_all-HasForce :
      (force : Bool) (kvs : List (ℕ × Option ℕ)) → HasForce force (close_all hm force kvs)
  close_all-HasForce force [] = tt
  close_all-HasForce force ((id, none) ∷ kvs) = close_all-HasForce force kvs
  close_all-HasForce force ((id, some p) ∷ kvs) = (refl, close_all-HasForce force kvs)

module _ {B M : Type 0} (hm : HashMap ℕ (Option ℕ)) where
  open hm use {entries}

  -- One call of `Close`, on the session that the pointer names.
  abbrev close_one : ℕ → Bool → List (Session B M) → List (Session B M)
  close_one p force store = elim (get_elem? store p) [
    | none ↦ store
    | some s ↦ set store p (close force s)
  ]

  unfoldable pub close_each : List (ℕ × Bool) → List (Session B M) → List (Session B M)
  close_each [] store = store
  close_each ((p, force) ∷ calls) store = close_each calls (close_one p force store)

  get_elem?-close_one :
      (p : ℕ) (force : Bool) (store : List (Session B M)) (s : Session B M)
      → get_elem? store p ≡ some s
      → get_elem? (close_one p force store) p ≡ some (close force s)
  get_elem?-close_one p force store s e =
      rw (e, close_one) (get_elem?-set store p s (close force s) e)

  get_elem?-close_other :
      (p q : ℕ) (force : Bool) (store : List (Session B M))
      → (q ≡ p → ⊥)
      → get_elem? (close_one q force store) p ≡ get_elem? store p
  get_elem?-close_other p q force store ne = elim (Option-cases (get_elem? store q)) [
    | inl out ↦ rw (out, close_one) refl
    | inr (s, e) ↦ rw (e, close_one) (get_elem?-set_other store q p (close force s) ne)
  ]

  -- A session that is closed in this way stays as it is.
  close_each-closed :
      (force : Bool) (calls : List (ℕ × Bool)) (store : List (Session B M)) (p : ℕ)
      (s : Session B M)
      → HasForce force calls
      → get_elem? store p ≡ some s
      → close force s ≡ s
      → get_elem? (close_each calls store) p ≡ some s
  unfolding close_each
  close_each-closed force [] store p s h e c = e
  close_each-closed force ((q, f) ∷ calls) store p s h e c =
      close_each-closed force calls (close_one q f store) p s h.1
        (elim (place-cases q p) [
          | inl same ↦
              ap (λ r. get_elem? (close_one r f store) p) same
              ∙ get_elem?-close_one p f store s e
              ∙ ap (λ g. some (close g s)) h.0
              ∙ ap some c
          | inr other ↦ get_elem?-close_other p q f store other ∙ e
        ])
        c

  close_each-called :
      (force : Bool) (calls : List (ℕ × Bool)) (store : List (Session B M)) (p : ℕ)
      (s : Session B M)
      → HasForce force calls
      → IsCalled hm p force calls
      → get_elem? store p ≡ some s
      → s.use_write_queue ≡ false
      → get_elem? (close_each calls store) p ≡ some (close force s)
  unfolding close_each
  close_each-called force [] store p s h i e q = absurd i
  close_each-called force ((r, f) ∷ calls) store p s h i e q = elim (place-cases r p) [
    | inl same ↦
        close_each-closed force calls (close_one r f store) p (close force s) h.1
          (ap (λ r. get_elem? (close_one r f store) p) same
            ∙ get_elem?-close_one p f store s e
            ∙ ap (λ g. some (close g s)) h.0)
          (close-close force s q)
    | inr other ↦ elim i [
      | inl here ↦ absurd (other here.0)
      | inr later ↦
          close_each-called force calls (close_one r f store) p s h.1 later
            (get_elem?-close_other p r f store other ∙ e) q
    ]
  ]

  -- The registry's `Close`, with the sessions that it closes.
  abbrev pub close_sessions :
      Bool → SessionManager hm → List (Session B M) → SessionManager hm × List (Session B M)
  close_sessions force m store = let r = close_registry hm force m in (r.0, close_each r.1 store)

  -- Both kinds of the registry's `Close`, for a registered session that does not use the write queue:
  -- it is left as one call of its own `Close` with the same `force` leaves it, whatever other sessions
  -- are registered and under however many ids; and by force no lookup finds anything afterwards, while
  -- a graceful close leaves every lookup as it was.
  pub close_sessions-registered :
      (force : Bool) (m : SessionManager hm) (store : List (Session B M)) (id p : ℕ)
      (s : Session B M)
      → get hm id m ≡ some p
      → get_elem? store p ≡ some s
      → s.use_write_queue ≡ false
      → (get_elem? (close_sessions force m store).1 p ≡ some (close force s))
        × ((j : ℕ)
            → get hm j (close_sessions force m store).0 ≡ (if force then none else get hm j m))
  close_sessions-registered force m store id p s r e q =
      let (called, _, lookups) = close_lem hm force m id p r in
      let uniform : HasForce force (close_registry hm force m).1 =
        rw (close_calls hm force m) (close_all-HasForce hm force (entries m)) in
      (close_each-called force (close_registry hm force m).1 store p s uniform called e q, lookups)
