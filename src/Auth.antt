-- ===== src/Auth.antt =====
-- The login gate of the proxy (proxy/auth.go): one module for each part, with the proofs below it.
pub mod Lockout
pub mod ClientIp
pub mod Session
pub mod Totp
pub mod Config
pub mod Login
pub mod Gate
pub mod Examples
