-- ===== src/Frame.antt =====
-- src/vectro/frame: owned byte buffers, messages and the framers that cut a byte stream.
pub mod RawBuffer
pub mod LineFramer
pub mod InternalMessage
