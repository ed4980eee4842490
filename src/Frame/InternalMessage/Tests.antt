-- ===== src/Frame/InternalMessage/Tests.antt =====
-- frame/internal_message.h: a message made of a buffer.
use vectro.Common.{◌≡◌, refl, true, false, some, [], ◌∷◌}
use vectro.Frame.RawBuffer.{reset, move_construct, release, Store, valid as buffer_valid}
use vectro.Frame.InternalMessage.{create, construct, default_meta, valid}

abbrev one_buffer : Store
one_buffer = record {
  objects = record { data_ = some 64; size_ = 5; deleter_ = some 1 } ∷ [];
  granted = [];
  released = [];
}

default_invalid : (let (m, t) = create one_buffer in valid m t) ≡ false
unfolding create valid buffer_valid
default_invalid = refl

-- A message that takes over the one buffer.
made_valid : (let (m, t) = construct default_meta 0 one_buffer in valid m t) ≡ true
unfolding construct valid buffer_valid reset move_construct release
made_valid = refl
