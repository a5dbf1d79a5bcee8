-- ===== src/Certs.antt =====
-- pkg/cert: the certificate authority, client certificates, and the secrets that hold them.
pub mod Crypto
pub mod Authority
pub mod Api
pub mod Manager
pub mod Memory
