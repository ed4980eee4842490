-- ===== src/Controller/Sending.antt =====
-- controller.h: the sessions that are registered, and the messages on their way out to them.
use native.Mathlib.Nat.{mod-lt}
use mathlib.Core.List.{append_assoc}
use vectro.Common.{
  ℕ, ◌%◌, ◌<◌, ◌≡◌, ◌≢◌, refl, ap, ◌∙◌, Bool, true, false, ◌&&◌, Option, none, some, List, [], ◌∷◌,
  ◌++◌, Key, nat_key, nat_beq, arith, if◌then◌else◌, Bool-cases, inl, inr,
}
use vectro.HashMap.{HashMap}
use vectro.Channel.{Channel}
use vectro.SessionManager.{SessionManager, add, get}
use vectro.SessionManager.Laws.{get-add}
use vectro.Controller.{
  sent, failed, Surroundings, Controller, emit, register_session, or_zero, handle_outbound,
}

module _ {S M K : Type 0} ⦃key : Key K⦄ (env : Surroundings S M K)
    (hc : HashMap K (Option (Channel M))) (hs : HashMap ℕ (Option S))
    (drain : Bool → SessionManager hs → SessionManager hs × List (S × Bool)) where
  register_session-sessions :
      (s : Controller env hc hs drain) (id : ℕ) (session : S)
      → 0 < s.num_channels
      → (register_session env hc hs drain id (some session) s).sessions
        ≡ add hs id (some session) s.sessions
  unfolding register_session
  register_session-sessions s id session pos = ground arith

  handle_outbound-events :
      (s : Controller env hc hs drain) (msg : M) (session : S)
      → get hs (or_zero (env.dest_session msg)) s.sessions ≡ some session
      → (handle_outbound env hc hs drain msg s).events
        ≡ s.events
          ++ sent session msg
            ∷ (if env.async_send_throws session msg && s.callbacks then failed msg ∷ [] else [])
  unfolding handle_outbound
  handle_outbound-events s msg session e = elim (Bool-cases (env.async_send_throws session msg)) [
    | inl on ↦ simp (e, on, handle_outbound) (failure s.callbacks refl)
    | inr off ↦ simp (e, off, handle_outbound) refl
  ]
    where
      t : Controller env hc hs drain
      t = emit env hc hs drain true (sent session msg) s

      failure :
          (b : Bool)
          → s.callbacks ≡ b
          → (emit env hc hs drain b (failed msg) t).events
            ≡ s.events ++ sent session msg ∷ (if b then failed msg ∷ [] else [])
      failure true on = append_assoc s.events (sent session msg ∷ []) (failed msg ∷ [])
      failure false off = refl

  register_session-callbacks :
      (s : Controller env hc hs drain) (id : ℕ) (session : S)
      → (register_session env hc hs drain id (some session) s).callbacks ≡ s.callbacks
  unfolding register_session
  register_session-callbacks s id session = ground arith

  register_session-assigned :
      (s : Controller env hc hs drain) (id : ℕ) (session : S)
      → 0 < s.num_channels
      → (register_session env hc hs drain id (some session) s).assigned
        ≡ s.assigned ++ (id, id % s.num_channels) ∷ []
  unfolding register_session
  register_session-assigned s id session pos = ground arith

  get-register_session :
      (s : Controller env hc hs drain) (id : ℕ) (session : S) (j : ℕ)
      → 0 < s.num_channels
      → get hs j (register_session env hc hs drain id (some session) s).sessions ≡ (
          if nat_beq id j
          then (elim (hs.find id s.sessions) [ none ↦ some session | some old ↦ old ])
          else get hs j s.sessions)
  get-register_session s id session j pos =
      ap (get hs j) (register_session-sessions s id session pos)
      ∙ get-add hs j id (some session) s.sessions

  -- With at least one channel, and an id that is not in the registry: after the registration of a session
  -- under the id, a message for this id is sent to it, and `OnError` is called exactly if `AsyncSend`
  -- throws and callbacks are set; the session is assigned the channel of its id modulo the number of
  -- channels, which is below that number; and every other id finds the session that it did.
  pub handle_outbound-register_session :
      (s : Controller env hc hs drain) (id : ℕ) (session : S) (msg : M)
      → 0 < s.num_channels
      → hs.find id s.sessions ≡ none
      → env.dest_session msg ≡ some id
      → ((handle_outbound env hc hs drain msg
            (register_session env hc hs drain id (some session) s)).events
          ≡ (register_session env hc hs drain id (some session) s).events
            ++ sent session msg
              ∷ (if env.async_send_throws session msg && s.callbacks then failed msg ∷ [] else []))
        × ((register_session env hc hs drain id (some session) s).assigned
            ≡ s.assigned ++ (id, id % s.num_channels) ∷ [])
        × (id % s.num_channels < s.num_channels)
        × ((j : ℕ)
            → j ≢ id
            → get hs j (register_session env hc hs drain id (some session) s).sessions
              ≡ get hs j s.sessions)
  handle_outbound-register_session s id session msg pos new dest =
      let t = register_session env hc hs drain id (some session) s in
      let found : get hs id t.sessions ≡ some session =
        ground (arith, get-register_session s id session id pos, new) in
      (
        handle_outbound-events t msg session (ap (λ d. get hs (or_zero d) t.sessions) dest ∙ found)
            ∙ ap
                (λ b.
                  t.events
                  ++ sent session msg
                    ∷ (if env.async_send_throws session msg && b then failed msg ∷ [] else []))
                (register_session-callbacks s id session),
        register_session-assigned s id session pos,
        mod-lt id pos,
        λ j other. ground (arith, get-register_session s id session j pos, other),
      )
