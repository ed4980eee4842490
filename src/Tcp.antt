-- ===== src/Tcp.antt =====
-- The parts of src/vectro/tcp.
pub mod Acceptor
pub mod Client
pub mod Server
