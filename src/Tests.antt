-- ===== src/Tests.antt =====
-- Concrete runs of the services and of the limiters, at which the theorems hold.
pub mod Fixtures
pub mod Tenants
pub mod Limits
pub mod Meters
pub mod Flags
pub mod Access
pub mod Apps
pub mod Themes
pub mod Workflows
