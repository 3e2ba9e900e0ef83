-- ===== src/Socks.antt =====
-- The SOCKS5 front-end (rust/arti-ffi/src/socks.rs).
pub mod Stream
pub mod Protocol
pub mod Isolation
pub mod Serve
