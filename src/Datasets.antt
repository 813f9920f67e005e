-- ===== src/Datasets.antt =====
-- workbench-core/datasets/src: data sets, their external endpoints, and the access to them.
pub mod Models
pub mod Permissions
pub mod Plugins
pub mod Service
pub mod Endpoints
pub mod Instance
mod Samples
mod Tests
