-- ===== src/Ngrok.antt =====
-- ngrok/src: the ngrok crate, which keeps its tunnels on a muxado session.
pub mod Io
pub mod Proto
pub mod Config
pub mod Rpc
pub mod Session
pub mod Tunnel
