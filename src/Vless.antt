-- ===== src/Vless.antt =====
-- vless.go: the VLESS request header that clients send and that backends are sent.
pub mod Uuid
pub mod Header
pub mod Flow
