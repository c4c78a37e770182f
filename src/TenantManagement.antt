-- ===== src/TenantManagement.antt =====
-- The module tenant-management: lifecycle.ts and service.ts.
pub mod Lifecycle
pub mod Members
pub mod Invitations
pub mod Tenants
