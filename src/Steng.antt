-- ===== src/Steng.antt =====
-- src/steng: the table engine.
pub mod Types
pub mod Filtering
pub mod ChangeBus
pub mod Host
pub mod IdGeneration
pub mod Engine
mod Tests
