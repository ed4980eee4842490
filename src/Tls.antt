-- ===== src/Tls.antt =====
-- tls/reloadable_tls_context_provider.cc: the provider of a TLS context that is loaded again from
-- files. A load gives a context, or `none` where it throws; ServerContext has its calls of the
-- library. `StartReloadTimer` is not modelled: it calls a function that holds a copy of itself made before it was initialised.
pub mod Ssl
pub mod ServerContext
pub mod ClientContext
pub mod Tests
use vectro.Common.{
  ◌≡◌, refl, sym, ap, ◌∙◌, arith, Bool, true, false, Option, none, some, List, [], ◌∷◌,
  if◌then◌else◌,
}

pub record Provider (C : Type 0) : Type 0 where
  pub current : Option C
  pub initialized : Bool

pub data Reloaded : Type 0 where
  returns : Bool → Reloaded
  throws : Reloaded

module _ {C : Type 0} where
  -- The members before the constructor's body.
  abbrev pub blank : Provider C
  blank = record { current = none; initialized = false }

  reload_context : Option C → Provider C → Provider C × Reloaded
  reload_context (some ctx) s = (record { current = some ctx; initialized = true }, returns true)
  reload_context none s = (s, if s.initialized then returns false else throws)

  -- The constructor: `none` where it throws.
  pub construct : Option C → Option (Provider C)
  unfolding reload_context
  construct load =
      let r = reload_context load blank in elim r.1 [ throws ↦ none | returns b ↦ some r.0 ]

  abbrev pub get_context : Provider C → Option C
  get_context s = s.current

  -- The loads one after another, with what each call does.
  pub reload_all : Provider C → List (Option C) → Provider C × List Reloaded
  unfolding reload_context
  reload_all s [] = (s, [])
  reload_all s (load ∷ loads) =
      let r = reload_context load s in let rest = reload_all r.0 loads in (rest.0, r.1 ∷ rest.1)

  -- The last context that was loaded, or else `c`.
  abbrev pub last_loaded : C → List (Option C) → C
  last_loaded c [] = c
  last_loaded c (none ∷ loads) = last_loaded c loads
  last_loaded c (some d ∷ loads) = last_loaded d loads

  abbrev outcomes : List (Option C) → List Reloaded
  outcomes [] = []
  outcomes (none ∷ loads) = returns false ∷ outcomes loads
  outcomes (some c ∷ loads) = returns true ∷ outcomes loads

  abbrev ready : C → Provider C
  ready c = record { current = some c; initialized = true }

  reload_all-ready :
      (loads : List (Option C)) (c : C)
      → reload_all (ready c) loads ≡ (ready (last_loaded c loads), outcomes loads)
  unfolding reload_all
  reload_all-ready [] c = refl
  reload_all-ready (none ∷ loads) c = rw (reload_all-ready loads c) refl
  reload_all-ready (some d ∷ loads) c = rw (reload_all-ready loads d) refl

  -- Where the constructor does not throw: it has loaded a context; after any loads that succeed or fail,
  -- `GetContext` answers the last context that was loaded, and never nullptr; and `ReloadContext`
  -- returned whether its load succeeded, and did not throw.
  pub construct-reload_all :
      (load : Option C) (p : Provider C) (loads : List (Option C))
      → construct load ≡ some p
      → (c : C) × (load ≡ some c)
        × (get_context (reload_all p loads).0 ≡ some (last_loaded c loads))
        × ((reload_all p loads).1 ≡ outcomes loads)
  unfolding construct
  construct-reload_all none p loads e = absurd (ground (arith, e))
  construct-reload_all (some c) p loads e =
      let same : ready c ≡ p = ground (arith, e) in
      (
        c,
        refl,
        ap (λ q. get_context (reload_all q loads).0) (sym same)
            ∙ ap (λ (r : Provider C × List Reloaded). get_context r.0) (reload_all-ready loads c),
        ap (λ q. (reload_all q loads).1) (sym same)
            ∙ ap (λ (r : Provider C × List Reloaded). r.1) (reload_all-ready loads c),
      )
