-- ===== src/Authorization.antt =====
-- workbench-core/authorization.
pub mod Models
pub mod Keys
pub mod Casl
pub mod Static
pub mod Template
pub mod GroupPlugin
pub mod Groups
pub mod PermissionsPlugin
pub mod Permissions
pub mod Service
pub mod Lookups
pub mod Dynamic
pub mod Middleware
pub mod Samples
pub mod Tests
pub mod TableTests
