-- ===== src/L2cap/Ertm.antt =====
-- Enhanced Retransmission Mode (src/l2cap/ertm.rs): the control field, the state of the engine, and
-- its operations.
pub mod Control
pub mod State
pub mod Output
pub mod Input
pub mod Engine
pub mod Order
pub mod Sending
pub mod Runs
pub mod Examples
