-- ===== src/Netab.antt =====
-- src/netab: access control in front of the engine.
pub mod Types
pub mod Rbac
pub mod Service
pub mod Scope
pub mod Sites
pub mod Reads
pub mod Writes
pub mod Requests
mod ServiceTests
mod Tests
