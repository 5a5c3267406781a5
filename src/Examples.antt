-- ===== src/Examples.antt =====
-- Instances of the parameters, and properties at concrete inputs.
mod Instances
mod Kernels
mod Pkce
mod Store
mod Dpop
mod Verifier
mod Session
mod Ssrf
mod ServiceAuth
mod Integrations
mod Tower
mod Keys
mod Documents
mod Identity
mod Discovery
mod Client
