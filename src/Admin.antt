-- ===== src/Admin.antt =====
-- admin.go: who may call which handler of the admin panel.
--
-- Tokens against forged requests are kept in memory, sessions in the database; the router checks both
-- before it calls a handler.
pub mod Backends
pub mod Subscriptions
pub mod Csrf
pub mod Sessions
pub mod Router
pub mod Serve
