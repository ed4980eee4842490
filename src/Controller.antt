-- ===== src/Controller.antt =====
-- controller.h: the controller over the sessions and the channels. `std::to_string`, and what the
-- code reads from a message as `meta().channel` and `meta().dest_session`, which
-- frame/internal_message.h does not declare, are parameters; so is `Drain` of the session manager,
-- which session_manager.h does not declare. A hook, the router and a session's `AsyncSend` are given
-- by what they answer, or by whether they throw. A shared pointer to a session is an `Option`. What
-- is dispatched to the strand is a step of its own. `fault` holds once a null pointer or a remainder
-- by 0 has been used.
pub mod Routing
pub mod Sending
pub mod Tests
use vectro.Common.{
  ℕ, ◌%◌, Bool, true, false, Option, none, some, List, [], ◌∷◌, ◌++◌, Key, nat_key, nat_beq,
  if◌then◌else◌,
}
use vectro.HashMap.{HashMap}
use vectro.Channel.{Channel}
use vectro.Channel.Manager.{ChannelManager, dispatch, shutdown_all}
use vectro.Channel.Manager
use vectro.SessionManager.{SessionManager, add, get}

pub data Event (S M : Type 0) : Type 0 where
  session_connected : ℕ → Event S M
  outbound processed routed failed : M → Event S M
  sent : S → M → Event S M
  closed : List (S × Bool) → Event S M

pub data Action (S M : Type 0) : Type 0 where
  sets_on_inbound : Option (M → Bool) → Action S M
  sets_on_process : Option (M → Bool) → Action S M
  sets_on_outbound : Bool → Action S M
  registers : ℕ → Option S → Action S M
  routes responds : M → Action S M
  shuts_down : (force : Bool) → Action S M
  -- the strand runs what `HandleProcessing` and `HandleOutbound` dispatch
  handles_processing handles_outbound : M → Action S M

-- What the code reads of its messages and its sessions.
pub record Surroundings (S M K : Type 0) : Type 0 where
  pub channel : M → Option ℕ
  pub dest_session : M → Option ℕ
  pub to_string : ℕ → K
  pub async_send_throws : S → M → Bool

abbrev pub or_zero : Option ℕ → ℕ
or_zero none = 0
or_zero (some n) = n

abbrev pub passes : {M : Type 0} → Option (M → Bool) → M → Bool
passes none msg = true
passes (some f) msg = f msg

abbrev is_thrown : {M : Type 0} → Option (M → Bool) → M → Bool
is_thrown none msg = false
is_thrown (some f) msg = f msg

abbrev pub is_set : {M : Type 0} → Option (M → Bool) → Bool
is_set none = false
is_set (some f) = true

module _ {S M K : Type 0} ⦃key : Key K⦄ (env : Surroundings S M K)
    (hc : HashMap K (Option (Channel M))) (hs : HashMap ℕ (Option S))
    (drain : Bool → SessionManager hs → SessionManager hs × List (S × Bool)) where
  pub record Controller : Type 0 where
    pub num_channels : ℕ
    pub inbound : ChannelManager hc
    pub outbound : ChannelManager hc
    pub sessions : SessionManager hs
    pub on_inbound : Option (M → Bool)
    -- these two say whether the call throws
    pub on_process : Option (M → Bool)
    pub router : Option (M → Bool)
    pub on_outbound : Bool
    pub callbacks : Bool
    -- the channel of each session that was registered
    pub assigned : List (ℕ × ℕ)
    pub events : List (Event S M)
    pub fault : Bool

  abbrev pub create : ℕ → Controller
  create num_channels = record {
    num_channels = num_channels;
    inbound = Manager.create hc;
    outbound = Manager.create hc;
    sessions = hs.empty;
    on_inbound = none;
    on_process = none;
    router = none;
    on_outbound = false;
    callbacks = false;
    assigned = [];
    events = [];
    fault = false;
  }

  abbrev pub emit : Bool → Event S M → Controller → Controller
  emit called ev s = if called then record s { events = s.events ++ ev ∷ [] } else s

  pub register_session : ℕ → Option S → Controller → Controller
  register_session id none s = record s { fault = true }
  register_session id (some session) s =
      if nat_beq s.num_channels 0
      then record s { fault = true }
      else emit s.callbacks (session_connected id) (record s {
        assigned = s.assigned ++ (id, id % s.num_channels) ∷ [];
        sessions = add hs id (some session) s.sessions;
      })

  pub route_message : M → Controller → Controller
  route_message msg s =
      if passes s.on_inbound msg
      then record s {
        inbound = dispatch hc (env.to_string (or_zero (env.channel msg))) msg s.inbound;
      }
      else s

  pub send_response : M → Controller → Controller
  send_response msg s =
      let t = emit s.on_outbound (outbound msg) s in
      record t { outbound = dispatch hc (env.to_string (or_zero (env.channel msg))) msg t.outbound }

  pub shutdown_all_sessions : Bool → Controller → Controller
  shutdown_all_sessions force s =
      let r = drain force s.sessions in
      record s {
        sessions = r.0;
        events = s.events ++ closed r.1 ∷ [];
        inbound = shutdown_all hc false s.inbound;
        outbound = shutdown_all hc false s.outbound;
      }

  -- `HandleProcessing`
  pub handle_processing : M → Controller → Controller
  handle_processing msg s =
      let t = emit (is_set s.on_process) (processed msg) s in
      if is_thrown s.on_process msg
      then emit s.callbacks (failed msg) t
      else (let u = emit (is_set s.router) (routed msg) t in
          if is_thrown s.router msg then emit s.callbacks (failed msg) u else u)

  -- `HandleOutbound`
  pub handle_outbound : M → Controller → Controller
  handle_outbound msg s = elim (get hs (or_zero (env.dest_session msg)) s.sessions) [
    | none ↦ s
    | some session ↦
        let t = emit true (sent session msg) s in
        if env.async_send_throws session msg then emit s.callbacks (failed msg) t else t
  ]

  pub step : Controller → Action S M → Controller
  unfolding register_session route_message send_response shutdown_all_sessions handle_processing
      handle_outbound
  step s (sets_on_inbound f) = record s { on_inbound = f }
  step s (sets_on_process f) = record s { on_process = f }
  step s (sets_on_outbound b) = record s { on_outbound = b }
  step s (registers id session) = register_session id session s
  step s (routes msg) = route_message msg s
  step s (responds msg) = send_response msg s
  step s (shuts_down force) = shutdown_all_sessions force s
  step s (handles_processing msg) = handle_processing msg s
  step s (handles_outbound msg) = handle_outbound msg s

  pub run : Controller → List (Action S M) → Controller
  unfolding step
  run s [] = s
  run s (a ∷ actions) = run (step s a) actions
