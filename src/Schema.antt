-- ===== src/Schema.antt =====
-- datamodel/PackSchema.ts: the binary format of nodes and certificates.
mod Tests
pub mod Bytes
pub mod Types
pub mod Number
pub mod Field
pub mod Iterator
pub mod Pack
