-- ===== src/Utils.antt =====
-- utils: messages in files, and the configuration.
pub mod Files
pub mod Config
pub mod Programs
