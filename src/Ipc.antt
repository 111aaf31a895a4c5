-- ===== src/Ipc.antt =====
-- src/ipc: connections and datagrams over socket paths.
pub mod SocketPath
pub mod Channel
pub mod Server
pub mod Accept
pub mod Datagrams
