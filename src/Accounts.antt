-- ===== src/Accounts.antt =====
-- workbench-core/accounts.
pub mod Models
pub mod Listing
pub mod Projects
pub mod ProjectLists
pub mod HostingModels
pub mod HostingAccounts
pub mod CostCenters
mod Instance
pub mod Tests
