-- ===== src/Core.antt =====
-- core/: the configuration.
pub mod Config
mod Tests
