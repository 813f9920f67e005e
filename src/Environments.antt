-- ===== src/Environments.antt =====
-- workbench-core/environments/src: environments, their attributes in the table, and the events that
-- change their status.
pub mod Models
pub mod Items
pub mod Reading
pub mod Service
pub mod StatusHandler
pub mod Listing
pub mod Types
pub mod TypeConfigs
mod Tests
