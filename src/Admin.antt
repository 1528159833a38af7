-- ===== src/Admin.antt =====
-- admin and interface: the administration channel and the start and end of workers.
pub mod Subscriber
pub mod Iworker
pub mod Stops
mod Examples
