-- ===== src/Controller/Tests.antt =====
-- controller.h: a controller whose messages are pairs of a channel and a session, and its theorems
-- at it.
use vectro.Common.{
  ℕ, ◌<◌, ◌≡◌, ◌≢◌, refl, false, ◌&&◌, Option, some, List, [], ◌∷◌, ◌++◌, nat_key, nat_beq, arith,
  if◌then◌else◌,
}
use vectro.HashMap.{HashMap}
use vectro.HashMap.Assoc.{assoc_map}
use vectro.Channel.{Channel}
use vectro.SessionManager.{get, close}
use vectro.Controller.{
  sent, failed, Action, sets_on_inbound, registers, routes, Surroundings, Controller, create,
  register_session, handle_outbound, step, run,
}
use vectro.Controller.Sending.{handle_outbound-register_session}

abbrev Message : Type 0
Message = ℕ × ℕ

abbrev channels : HashMap ℕ (Option (Channel Message))
channels = assoc_map ℕ (Option (Channel Message))

abbrev registry : HashMap ℕ (Option ℕ)
registry = assoc_map ℕ (Option ℕ)

abbrev env : Surroundings ℕ Message ℕ
env = record {
  channel = λ msg. some msg.0;
  dest_session = λ msg. some msg.1;
  to_string = λ n. n;
  async_send_throws = λ session msg. nat_beq session 13;
}

abbrev fresh : Controller env channels registry (close registry)
fresh = create env channels registry (close registry) 4

-- A filter on messages is set, and two sessions are registered.
abbrev begun : List (Action ℕ Message)
begun =
    sets_on_inbound (some (λ msg. nat_beq msg.0 2))
    ∷ registers 1 (some 11)
    ∷ registers 6 (some 13)
    ∷ []

routes_fault :
    (run env channels registry (close registry) fresh (begun ++ routes (1, 1) ∷ [])).inbound.fault
    ≡ false
unfolding run step
routes_fault = refl

handle_outbound-register_session_example :
    ((handle_outbound env channels registry
        (close registry)
        (2, 6)
        (register_session env channels registry (close registry) 6 (some 13) fresh)).events
      ≡ (register_session env channels registry (close registry) 6 (some 13) fresh).events
        ++ sent 13 (2, 6) ∷ (if nat_beq 13 13 && fresh.callbacks then failed (2, 6) ∷ [] else []))
    × ((register_session env channels registry (close registry) 6 (some 13) fresh).assigned
        ≡ [] ++ (6, 2) ∷ [])
    × (2 < 4)
    × ((j : ℕ)
        → j ≢ 6
        → get registry j
            (register_session env channels registry (close registry) 6 (some 13) fresh).sessions
          ≡ get registry j fresh.sessions)
handle_outbound-register_session_example =
    handle_outbound-register_session env channels registry (close registry) fresh 6 13 (2, 6)
      (omega arith) refl refl
