-- ===== src/Bsp.antt =====
-- BSP-Binary Star Pattern.
pub mod States
pub mod Server1
pub mod Bstar
pub mod Agreement
pub mod Pair
pub mod Client
pub mod Programs
mod Examples
mod Tests
