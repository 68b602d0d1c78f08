-- ===== src/Host.antt =====
-- The Classic host (src/classic_host.rs): its flow control of ACL packets.
pub mod AclFlow
pub mod Examples
