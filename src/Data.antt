-- ===== src/Data.antt =====
-- datamodel/level2/basedatanode and datamodel/level3/datanode: nodes that carry data, their copies
-- under another parent, and the nodes that they embed.
mod Tests
pub mod Props
pub mod Flags
pub mod Copy
pub mod Validate
