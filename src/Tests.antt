-- ===== src/Tests.antt =====
-- Runs of the definitions on concrete inputs, and the theorems at concrete inputs.
mod Vless
mod Tls
mod Metrics
mod Health
mod Xray
mod Balancer
mod Vision
mod Proxy
mod Admin
mod Observatory
mod Streams
mod Panel
mod Requests
