-- ===== src/Reality.antt =====
-- reality.go: the dialer of a backend behind REALITY, and the buffered writer.
pub mod Keys
pub mod Dial
pub mod FlushWriter
