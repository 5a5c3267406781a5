-- ===== src/Kernels.antt =====
-- src/kernels: the pure decision functions that the security modules call.
pub mod IpFilter
pub mod CtEq
pub mod PkceBytes
pub mod ServiceAuthBytes
pub mod HtuComponents
pub mod NsidBytes
