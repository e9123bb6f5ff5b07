-- ===== src/Friend.antt =====
-- datamodel/level2/basefriendcert and datamodel/level3/friendcert: the certificates by which two
-- friends let a third party extend licenses between them.

mod Tests
pub mod Props
pub mod Hash
pub mod Mirror
pub mod Validate
