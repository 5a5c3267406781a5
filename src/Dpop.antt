-- ===== src/Dpop.antt =====
-- src/dpop.rs: DPoP proofs (RFC 9449), with the caches against replays and for nonces.
pub mod Errors
pub mod ReplayCache
pub mod NonceSource
pub mod Htu
pub mod Proof
pub mod Verifier
pub mod Key
