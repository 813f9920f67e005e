-- ===== src/Authentication.antt =====
-- workbench-core/authentication.
pub mod Session
pub mod Tests
