-- ===== src/TenantAccess.antt =====
-- api/admin/_shared: who is calling (auth-context.ts), which tenants the caller has access to
-- (tenant-user-access.ts), and what the caller may do there (tenant-access.ts and
-- api/admin/tenants/_shared/authorization.ts).
pub mod Requests
pub mod Records
pub mod Authorization
