-- ===== src/Cert.antt =====
-- datamodel: certificates that let one key sign in another's name.
mod Tests
pub mod Props
pub mod Validate
