-- ===== src/Channel/Manager.antt =====
-- channel.h: the manager of the channels by name. A channel pointer is an `Option`, with `none` for
-- nullptr, and the hash map is a parameter. `fault` holds once a null pointer has been used, after
-- which nothing is said of the state. What follows the two returns of `GetChannel` is never reached.
-- `ended` holds the channels that have left the map, as they were shut down.
use vectro.Common.{
  ◌++◌, ◌≡◌, refl, sym, ap, ◌∙◌, Bool, true, false, ◌||◌, Option, none, some, List, [], ◌∷◌, arith,
  Key,
}
use vectro.HashMap.{HashMap, lookup}
use vectro.Channel.{Channel, enqueue, shut}

pub data Call (K M : Type 0) : Type 0 where
  dispatches : K → M → Call K M
  shuts_all : (force : Bool) → Call K M

module _ {K M : Type 0} ⦃key : Key K⦄ (hm : HashMap K (Option (Channel M))) where
  open hm use {Map, empty, find, assign, entries, find-entries, entries-empty}

  pub record ChannelManager : Type 0 where
    pub channels : Map
    -- the channels that were cleared
    pub ended : List (Channel M)
    pub fault : Bool

  abbrev pub create : ChannelManager
  create = record { channels = empty; ended = []; fault = false }

  abbrev get_channel : K → ChannelManager → Option (Channel M)
  get_channel id s = elim (find id s.channels) [ none ↦ none | some ch ↦ ch ]

  pub dispatch : K → M → ChannelManager → ChannelManager
  unfolding enqueue
  dispatch id msg s = elim (get_channel id s) [
    | none ↦ record s { fault = true }
    | some ch ↦ record s { channels = assign id (some (enqueue msg ch)) s.channels }
  ]

  abbrev shut_each : Bool → List (K × Option (Channel M)) → List (Channel M)
  unfolding shut
  shut_each force [] = []
  shut_each force ((id, none) ∷ kvs) = shut_each force kvs
  shut_each force ((id, some ch) ∷ kvs) = shut force ch ∷ shut_each force kvs

  abbrev has_null : List (K × Option (Channel M)) → Bool
  has_null [] = false
  has_null ((id, none) ∷ kvs) = true
  has_null ((id, some ch) ∷ kvs) = has_null kvs

  -- `ShutdownAllGraceful` and `ShutdownAllForce`
  pub shutdown_all : Bool → ChannelManager → ChannelManager
  unfolding shut
  shutdown_all force s = record {
    channels = empty;
    ended = s.ended ++ shut_each force (entries s.channels);
    fault = s.fault || has_null (entries s.channels);
  }

  pub call : ChannelManager → Call K M → ChannelManager
  unfolding dispatch shutdown_all
  call s (dispatches id msg) = dispatch id msg s
  call s (shuts_all force) = shutdown_all force s

  pub run : ChannelManager → List (Call K M) → ChannelManager
  unfolding call
  run s [] = s
  run s (c ∷ calls) = run (call s c) calls

  abbrev pub has_dispatch : List (Call K M) → Bool
  has_dispatch [] = false
  has_dispatch (dispatches id msg ∷ calls) = true
  has_dispatch (shuts_all force ∷ calls) = has_dispatch calls

  -- A manager without a channel.
  abbrev bare : Bool → ChannelManager
  bare b = record { channels = empty; ended = []; fault = b }

  find-empty : (k : K) → find k empty ≡ none
  find-empty k = find-entries k empty ∙ ap (lookup k) entries-empty

  dispatch-bare : (id : K) (msg : M) (b : Bool) → dispatch id msg (bare b) ≡ bare true
  unfolding dispatch
  dispatch-bare id msg b = rw (find-empty id, dispatch) refl

  shutdown_all-bare : (force b : Bool) → shutdown_all force (bare b) ≡ bare b
  unfolding shutdown_all
  shutdown_all-bare force true = rw (entries-empty, shutdown_all) refl
  shutdown_all-bare force false = rw (entries-empty, shutdown_all) refl

  run-bare :
      (calls : List (Call K M)) (b : Bool) → run (bare b) calls ≡ bare (b || has_dispatch calls)
  unfolding run call
  run-bare [] b = ap bare (ground arith)
  run-bare (dispatches id msg ∷ calls) b =
      ap (λ s. run s calls) (dispatch-bare id msg b) ∙ run-bare calls true ∙ ap bare (ground arith)
  run-bare (shuts_all force ∷ calls) b =
      ap (λ s. run s calls) (shutdown_all-bare force b) ∙ run-bare calls b

  -- The manager has no channel, and has had none.
  abbrev pub IsBare : ChannelManager → Type 0
  IsBare s = (b : Bool) × (s ≡ bare b)

  pub create-IsBare : IsBare create
  create-IsBare = (false, refl)

  pub dispatch-IsBare :
      (id : K) (msg : M) (s : ChannelManager) → IsBare s → dispatch id msg s ≡ bare true
  dispatch-IsBare id msg s (b, e) = ap (dispatch id msg) e ∙ dispatch-bare id msg b

  pub shutdown_all-IsBare :
      (force : Bool) (s : ChannelManager) → IsBare s → shutdown_all force s ≡ s
  shutdown_all-IsBare force s (b, e) = ap (shutdown_all force) e ∙ shutdown_all-bare force b ∙ sym e

  -- In any run of calls from the constructor on, the map of channels stays empty, no channel is ever
  -- shut down, and a null pointer has been used as soon as there has been a `Dispatch`.
  pub run-create :
      (calls : List (Call K M)) → run create calls ≡ record create { fault = has_dispatch calls }
  run-create calls = run-bare calls false
