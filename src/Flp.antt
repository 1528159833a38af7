-- ===== src/Flp.antt =====
-- 10.FLP-Freelance Protocol.
pub mod Constants
pub mod Agent
pub mod Server
pub mod Exchange
pub mod Api
pub mod Programs
mod Examples
