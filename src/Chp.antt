-- ===== src/Chp.antt =====
-- 12.CHP-Clustered Hashmap Protocol.
pub mod Decimal
pub mod Archive
pub mod KvMsg
pub mod CloneServer
mod Examples
