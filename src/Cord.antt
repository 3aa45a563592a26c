-- ===== src/Cord.antt =====
-- src/cord: coordination between nodes.
pub mod Store
pub mod Iam
pub mod Registry
pub mod Cluster
pub mod Election
mod Tests
