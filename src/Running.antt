-- ===== src/Running.antt =====
-- The running nets and servers of src/rabbit_digger/running.rs.
pub mod Wrap
pub mod Traffic
pub mod Nets
pub mod Chain
pub mod Server
pub mod Sound
pub mod Alive
pub mod Stop
mod Tests
