-- ===== src/Stream.antt =====
-- src/vectro/stream: writing to a connection.
pub mod WriteQueue
