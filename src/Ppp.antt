-- ===== src/Ppp.antt =====
-- 6.PPP-Paranoid Pirate Protocol.
pub mod Constants
pub mod WorkerQueue
pub mod Broker
pub mod Worker
pub mod Client
mod Examples
mod Tests
