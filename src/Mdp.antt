-- ===== src/Mdp.antt =====
-- 7.MDF-Majordomo Protocol.
pub mod Protocol
pub mod Registry
pub mod Broker
pub mod Loop
pub mod WorkerApi
pub mod Worker
pub mod ClientApi
pub mod Factory
pub mod ClientMain
pub mod Exchange
pub mod RoundTrip
mod Examples
mod WorkerTests
