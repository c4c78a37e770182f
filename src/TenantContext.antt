-- ===== src/TenantContext.antt =====
-- modules/tenant-context: which tenant a request runs in (middleware.ts), and a background job
-- (job-context.ts).
pub mod Routes
pub mod Naming
pub mod Entry
pub mod Jobs
pub mod Isolation
pub mod Confinement
