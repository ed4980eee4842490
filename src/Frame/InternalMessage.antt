-- ===== src/Frame/InternalMessage.antt =====
-- frame/internal_message.h and frame/internal_message.cc: a message, which is metadata and a buffer. The
-- buffer is one of the objects of the store of Frame/RawBuffer, by its place. A point of the steady
-- clock is a number.
pub mod Tests
use Prim.Native.String.{String}
use vectro.Common.{
  ℕ, zero, suc, ◌+◌, ◌<◌, ◌≡◌, refl, Bool, true, false, Option, none, some, List, [], ◌∷◌, ◌++◌,
  length, get_or, set, without, arith,
}
use vectro.Frame.RawBuffer.{
  RawBuffer, null_buffer, Store, object, valid as buffer_valid, release, reset, move_construct,
}

pub data MessageOrigin : Type 0 where
  unknown server client : MessageOrigin

pub record InternalMessageMeta : Type 0 where
  pub trace_id : ℕ
  pub connection_id : ℕ
  pub timestamp : ℕ
  pub tag : Option String
  pub remote_ip : String
  pub remote_port : ℕ
  pub local_port : ℕ
  pub route_hint : Option String
  pub is_behind_reverse_proxy : Bool
  pub is_can_get_real_ip : Bool
  pub origin : MessageOrigin

-- The initial values of the members.
abbrev pub default_meta : InternalMessageMeta
default_meta = record {
  trace_id = 0;
  connection_id = 0;
  timestamp = 0;
  tag = none;
  remote_ip = "";
  remote_port = 0;
  local_port = 0;
  route_hint = none;
  is_behind_reverse_proxy = false;
  is_can_get_real_ip = true;
  origin = unknown;
}

pub record InternalMessage : Type 0 where
  pub meta : InternalMessageMeta
  -- the place of `buffer_`
  pub buffer : ℕ

-- The default constructor: an empty buffer at the front of the store.
pub create : Store → InternalMessage × Store
create s =
    (record { meta = default_meta; buffer = 0 }, record s { objects = null_buffer ∷ s.objects })

-- `InternalMessage(meta, std::move(object j))`: the parameter takes over the caller's buffer, the
-- member takes over the parameter's, and the parameter is destroyed.
pub construct : InternalMessageMeta → ℕ → Store → InternalMessage × Store
construct meta j s =
    let t = reset 1 (move_construct 0 (move_construct j s)) in
    (record { meta = meta; buffer = 0 }, record t { objects = without 1 t.objects })

pub valid : InternalMessage → Store → Bool
valid m s = buffer_valid (object s m.buffer)

get_or-set :
    (xs : List RawBuffer) (i : ℕ) (d v : RawBuffer) → i < length xs → get_or (set xs i v) i d ≡ v
get_or-set [] i d v lt = absurd (omega (arith, lt))
get_or-set (x ∷ xs) zero d v lt = refl
get_or-set (x ∷ xs) (suc i) d v lt = get_or-set xs i d v (omega (arith, lt))

-- A message that is made of a buffer of the store: it is valid exactly where that buffer was, the
-- buffer that it was made of is empty afterwards, and no deleter has been called.
construct-valid :
    (meta : InternalMessageMeta) (j : ℕ) (s : Store)
    → j < length s.objects
    → (let (m, t) = construct meta j s in
        (valid m t ≡ buffer_valid (object s j))
        × (object t (suc j) ≡ null_buffer)
        × (t.released ≡ s.released)
        × (m.meta ≡ meta))
unfolding construct valid reset move_construct release
construct-valid meta j s lt = (refl, get_or-set s.objects j null_buffer null_buffer lt, refl, refl)
