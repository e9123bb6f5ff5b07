-- ===== src/SchemaUtil.antt =====
-- util/SchemaUtil.ts: JSON values parsed by a schema.
pub mod Values
pub mod Entries
pub mod Parse
pub mod Conforms
pub mod Keys
pub mod Objects
pub mod Known
pub mod Records
pub mod Sound
pub mod Refuses
pub mod Admits
mod Tests
