-- ===== src/Ipc.antt =====
-- The control protocol over a Unix socket, src/ipc of the repository.
pub mod Protocol
pub mod Socket
pub mod Server
pub mod Client
