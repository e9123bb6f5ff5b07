-- ===== src/Model.antt =====
-- datamodel/BaseModel.ts: what nodes and certificates share.
mod Tests
pub mod Bits
pub mod Props
pub mod Constraints
pub mod HashList
