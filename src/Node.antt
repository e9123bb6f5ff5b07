-- ===== src/Node.antt =====
-- datamodel/level1/basenode: what every node of the graph has. `Props` and `Flags` hold its state,
-- `Validate` and `Signed` its checks.
mod Tests
pub mod Props
pub mod Flags
pub mod Validate
pub mod Signed
