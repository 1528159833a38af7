-- ===== src/Tsp.antt =====
-- 9.TSP-Titanic Service Protocol.
pub mod Directory
pub mod Workers
pub mod Client
pub mod Queue
pub mod Threads
pub mod Titanic
pub mod Program
mod PlainFiles
mod Examples
mod TitanicTests
