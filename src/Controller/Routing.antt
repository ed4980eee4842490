-- ===== src/Controller/Routing.antt =====
-- controller.h: messages on their way in.
use vectro.Common.{
  ℕ, ◌≡◌, refl, ap, ◌∙◌, Bool, true, false, ◌||◌, Option, List, [], ◌∷◌, Key, nat_key, arith,
  Bool-cases, inl, inr,
}
use vectro.HashMap.{HashMap}
use vectro.Channel.{Channel}
use vectro.Channel.Manager.{
  ChannelManager, IsBare, create-IsBare, dispatch-IsBare, shutdown_all-IsBare,
}
use vectro.SessionManager.{SessionManager}
use vectro.Controller.{
  Action, sets_on_inbound, sets_on_process, sets_on_outbound, registers, routes, responds,
  shuts_down, handles_processing, handles_outbound, Surroundings, Controller, create,
  register_session, or_zero, passes, route_message, send_response, shutdown_all_sessions,
  handle_processing, handle_outbound, step, run,
}

module _ {S M K : Type 0} ⦃key : Key K⦄ (env : Surroundings S M K)
    (hc : HashMap K (Option (Channel M))) (hs : HashMap ℕ (Option S))
    (drain : Bool → SessionManager hs → SessionManager hs × List (S × Bool)) where
  -- The channels of the controller are still those that it was created with.
  record IsUnwired (s : Controller env hc hs drain) : Type 0 where
    inbound : IsBare hc s.inbound
    outbound : IsBare hc s.outbound

  -- The managers are not touched.
  keep :
      {s : Controller env hc hs drain} (t : Controller env hc hs drain)
      → IsUnwired s
      → t.inbound ≡ s.inbound
      → t.outbound ≡ s.outbound
      → IsUnwired t
  keep t b ei eo = record {
    inbound = (b.inbound.0, ei ∙ b.inbound.1);
    outbound = (b.outbound.0, eo ∙ b.outbound.1);
  }

  route_message-IsUnwired :
      (msg : M) (s : Controller env hc hs drain)
      → IsUnwired s
      → IsUnwired (route_message env hc hs drain msg s)
  unfolding route_message
  route_message-IsUnwired msg s b = elim (Bool-cases (passes s.on_inbound msg)) [
    | inl on ↦
        simp (on, route_message)
          (record {
            inbound = (
              true,
              dispatch-IsBare hc (env.to_string (or_zero (env.channel msg))) msg s.inbound
                  b.inbound,
            );
            outbound = b.outbound;
          })
    | inr off ↦ simp (off, route_message) b
  ]

  step-IsUnwired :
      (a : Action S M) (s : Controller env hc hs drain)
      → IsUnwired s
      → IsUnwired (step env hc hs drain s a)
  unfolding step register_session send_response shutdown_all_sessions handle_processing
      handle_outbound
  step-IsUnwired (sets_on_inbound f) s b = keep (record s { on_inbound = f }) b refl refl
  step-IsUnwired (sets_on_process f) s b = keep (record s { on_process = f }) b refl refl
  step-IsUnwired (sets_on_outbound f) s b = keep (record s { on_outbound = f }) b refl refl
  step-IsUnwired (registers id session) s b =
      keep (register_session env hc hs drain id session s) b (ground arith) (ground arith)
  step-IsUnwired (routes msg) s b = route_message-IsUnwired msg s b
  step-IsUnwired (responds msg) s b = elim (Bool-cases s.on_outbound) [
    | inl on ↦
        simp (on, send_response)
          (record {
            inbound = b.inbound;
            outbound = (
              true,
              dispatch-IsBare hc (env.to_string (or_zero (env.channel msg))) msg s.outbound
                  b.outbound,
            );
          })
    | inr off ↦
        simp (off, send_response)
          (record {
            inbound = b.inbound;
            outbound = (
              true,
              dispatch-IsBare hc (env.to_string (or_zero (env.channel msg))) msg s.outbound
                  b.outbound,
            );
          })
  ]
  step-IsUnwired (shuts_down force) s b =
      keep (shutdown_all_sessions env hc hs drain force s) b
        (shutdown_all-IsBare hc false s.inbound b.inbound)
        (shutdown_all-IsBare hc false s.outbound b.outbound)
  step-IsUnwired (handles_processing msg) s b =
      keep (handle_processing env hc hs drain msg s) b (ground arith) (ground arith)
  step-IsUnwired (handles_outbound msg) s b =
      keep (handle_outbound env hc hs drain msg s) b (ground arith) (ground arith)

  run-IsUnwired :
      (actions : List (Action S M)) (s : Controller env hc hs drain)
      → IsUnwired s
      → IsUnwired (run env hc hs drain s actions)
  unfolding run
  run-IsUnwired [] s b = b
  run-IsUnwired (a ∷ actions) s b =
      run-IsUnwired actions (step env hc hs drain s a) (step-IsUnwired a s b)

  -- After any run from the constructor on, `RouteMessage` uses a null pointer for every message that
  -- the hook `OnInbound` lets pass, and for no other.
  run-route_message :
      (n : ℕ) (actions : List (Action S M)) (msg : M)
      → (route_message env hc hs drain msg
          (run env hc hs drain (create env hc hs drain n) actions)).inbound.fault
        ≡ (run env hc hs drain (create env hc hs drain n) actions).inbound.fault
          || passes (run env hc hs drain (create env hc hs drain n) actions).on_inbound msg
  unfolding route_message
  run-route_message n actions msg =
      let s = run env hc hs drain (create env hc hs drain n) actions in
      let unwired =
        run-IsUnwired actions (create env hc hs drain n)
          (record { inbound = create-IsBare hc; outbound = create-IsBare hc }) in
      let faults =
        ap (λ (m : ChannelManager hc). m.fault)
          (dispatch-IsBare hc (env.to_string (or_zero (env.channel msg))) msg s.inbound
            unwired.inbound) in
      ground (arith, faults)
