-- ===== src/Tcp/Acceptor.antt =====
-- tcp/tcp_acceptor_loop.h: the loop that accepts connections at one port. A step is one call of
-- another thread, one handler of the strand run to its end, or an event of the operating system. What
-- a call dispatches to the strand waits in `posts`; the strand runs its handlers one at a time, in
-- any order. An accept is cancelled by the end of its operation with an error; where the system had
-- completed it before, the cancellation comes too late, which is also so for a timer. `id_seq` is
-- shared by the loops. The session's own start and its registration are the entry of `sessions`.
pub mod Outstanding
pub mod Sessions
pub mod Ids
pub mod Tests
use vectro.Common.{
  ℕ, suc, ◌+◌, ◌%◌, ◌^◌, Bool, true, false, ◌&&◌, Option, none, some, List, [], ◌∷◌, ◌++◌, map,
  length, get_elem?, set, without, if◌then◌else◌,
}

pub data Post : Type 0 where
  accepts_next shuts : Post
  drains : Bool → Post
  subscribes : Option ℕ → Post

-- How an accept ends; `remote_endpoint` of the connection may fail.
pub data Outcome (E : Type 0) : Type 0 where
  failed : Outcome E
  connected : Option E → Outcome E

pub data Timer : Type 0 where
  waiting expired canceled handled : Timer

-- An accept that has been started, with its timer, and how it has ended.
pub record Accept (E : Type 0) : Type 0 where
  pub timer : ℕ
  pub outcome : Option (Outcome E)

-- A session that has been started and registered.
pub record Started (E : Type 0) : Type 0 where
  pub id : ℕ
  pub remote : E
  pub port : ℕ

pub record AcceptorLoop (E : Type 0) : Type 0 where
  pub port : ℕ
  pub filter : Option (E → Bool)
  pub drain_callback : Option ℕ
  pub stopped : Bool
  pub draining : Bool
  pub is_open : Bool
  pub id_seq : ℕ
  pub posts : List Post
  pub accepts : List (Accept E)
  -- the timers in the order of their creation
  pub timers : List Timer
  pub sessions : List (Started E)
  -- the connections closed by the loop, and the calls of the callback at a time
  pub closed : List (Option E)
  pub drain_calls : List (ℕ × Bool × ℕ)

pub data Action (E : Type 0) : Type 0 where
  starts : Action E
  stops : Action E
  enables_draining : Bool → Action E
  sets_drain_callback : Option ℕ → Action E
  -- the strand runs what was dispatched at this place, at the time `now`
  runs : (place now : ℕ) → Action E
  -- the system ends the accept at this place
  completes : (place : ℕ) → Outcome E → Action E
  expires : (timer : ℕ) → Action E
  -- the handlers of an accept, and of a timer
  accepts_at : (place : ℕ) → Action E
  times_out : (timer : ℕ) → Action E
  -- another loop takes an id
  takes_id : Action E

abbrev pub stop_timer : Timer → Timer
stop_timer waiting = canceled
stop_timer t = t

-- The time of the timer comes.
abbrev expire : Timer → Timer
expire waiting = expired
expire t = t

-- `timers[i]` changed by `f`
abbrev pub at_timer : (Timer → Timer) → ℕ → List Timer → List Timer
at_timer f i ts = elim (get_elem? ts i) [ none ↦ ts | some t ↦ set ts i (f t) ]

abbrev pub notify : ℕ → Bool → Option ℕ → List (ℕ × Bool × ℕ)
notify now enable none = []
notify now enable (some cb) = (cb, enable, now) ∷ []

module _ {E : Type 0} where
  abbrev pub create : ℕ → Option (E → Bool) → AcceptorLoop E
  create port filter = record {
    port = port;
    filter = filter;
    drain_callback = none;
    stopped = false;
    draining = false;
    is_open = true;
    id_seq = 1;
    posts = [];
    accepts = [];
    timers = [];
    sessions = [];
    closed = [];
    drain_calls = [];
  }

  abbrev pub abort : Accept E → Accept E
  abort a = elim a.outcome [ none ↦ record { timer = a.timer; outcome = some failed } | some o ↦ a ]

  -- `acceptor_->cancel`
  abbrev pub cancel : AcceptorLoop E → AcceptorLoop E
  cancel s = record s { accepts = map abort s.accepts }

  pub do_accept : AcceptorLoop E → AcceptorLoop E
  do_accept s = if s.stopped then s else record s {
    accepts = s.accepts ++ record { timer = length s.timers; outcome = none } ∷ [];
    timers = s.timers ++ waiting ∷ [];
  }

  abbrev pub passes : Option (E → Bool) → E → Bool
  passes none remote = true
  passes (some filter) remote = filter remote

  -- `CreateSession` with `OnSessionAccepted`
  abbrev pub create_session : E → AcceptorLoop E → AcceptorLoop E
  create_session remote s = record s {
    id_seq = (s.id_seq + 1) % 2 ^ 64;
    sessions = s.sessions ++ record { id = s.id_seq; remote = remote; port = s.port } ∷ [];
  }

  abbrev pub close : Option E → AcceptorLoop E → AcceptorLoop E
  close remote s = record s { closed = s.closed ++ remote ∷ [] }

  pub on_outcome : Outcome E → AcceptorLoop E → AcceptorLoop E
  on_outcome failed s = s
  on_outcome (connected none) s = close none s
  on_outcome (connected (some remote)) s =
      if passes s.filter remote
      then if s.draining then close (some remote) s else create_session remote s
      else close (some remote) s

  -- The handler of `async_accept`.
  pub on_accept : (place : ℕ) → Accept E → Outcome E → AcceptorLoop E → AcceptorLoop E
  unfolding do_accept on_outcome
  on_accept place a o s =
      let t = record s {
        accepts = without place s.accepts;
        timers = at_timer stop_timer a.timer s.timers;
      } in
      if s.stopped then t else do_accept (on_outcome o t)

  -- The handler of a timer: an error where it has been cancelled.
  abbrev pub on_timer : ℕ → Timer → AcceptorLoop E → AcceptorLoop E
  on_timer i expired s = cancel (record s { timers = set s.timers i handled })
  on_timer i canceled s = record s { timers = set s.timers i handled }
  on_timer i _ s = s

  pub on_post : (now : ℕ) → Post → AcceptorLoop E → AcceptorLoop E
  unfolding do_accept
  on_post now accepts_next s = do_accept s
  on_post now shuts s = cancel (record s { stopped = true; is_open = false })
  on_post now (drains enable) s = record s {
    draining = enable;
    drain_calls = s.drain_calls ++ notify now enable s.drain_callback;
  }
  on_post now (subscribes cb) s = record s { drain_callback = cb }

  abbrev post : Post → AcceptorLoop E → AcceptorLoop E
  post h s = record s { posts = s.posts ++ h ∷ [] }

  unfoldable pub step : AcceptorLoop E → Action E → AcceptorLoop E
  unfolding on_accept on_post
  step s starts = if s.stopped then s else post accepts_next s
  step s stops = post shuts s
  step s (enables_draining enable) = post (drains enable) s
  step s (sets_drain_callback cb) = post (subscribes cb) s
  step s (runs place now) = elim (get_elem? s.posts place) [
    | none ↦ s
    | some h ↦ on_post now h (record s { posts = without place s.posts })
  ]
  step s (completes place o) = elim (get_elem? s.accepts place) [
    | none ↦ s
    | some a ↦ elim a.outcome [
      | none ↦ record s {
        accepts = set s.accepts place (record { timer = a.timer; outcome = some o });
      }
      | some ended ↦ s
    ]
  ]
  step s (expires i) = record s { timers = at_timer expire i s.timers }
  step s (accepts_at place) = elim (get_elem? s.accepts place) [
    | none ↦ s
    | some a ↦ elim a.outcome [ none ↦ s | some o ↦ on_accept place a o s ]
  ]
  step s (times_out i) = elim (get_elem? s.timers i) [ none ↦ s | some t ↦ on_timer i t s ]
  step s takes_id = record s { id_seq = (s.id_seq + 1) % 2 ^ 64 }

  pub run : AcceptorLoop E → List (Action E) → AcceptorLoop E
  unfolding step
  run s [] = s
  run s (a ∷ actions) = run (step s a) actions
