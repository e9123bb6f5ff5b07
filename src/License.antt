-- ===== src/License.antt =====
-- datamodel/level2/baselicensenode and datamodel/level3/licensenode: the licenses by which a node is
-- given to others.
mod Tests
pub mod Props
pub mod Flags
pub mod Validate
pub mod Send
pub mod Hashes
pub mod Embed
