-- ===== src/Lib.antt =====
-- The multi-tenant commerce backend: tenants and their members, billing, and request limits.
--
-- The backend keeps its state in a PostgreSQL database, which its services use through knex, and in
-- the memory of a process, where the request limits are. A request passes the limiters of
-- src/api/middlewares.ts; the routes call the services of src/modules, which read and write tables,
-- record an audit event, and invalidate what the process remembers of the tenant.
--
-- The files:
--   Prelude: names of the libraries passed on, tests, lists, JavaScript's strings and maps.
--   Sql: a database table and the statements on it, as a record of operations with the laws of
--   `select`, `insert`, `update` and `delete`; Sql/Rows has the lemmas on counts of rows and on
--   `.first()`, Sql/Memory a database that meets the laws.
--   Schema: the rows of the tables, with their enumerations.
--   World: the state of the services, all tables together, and how a method runs: it returns the new
--   state beside its result or its error. `do` blocks follow the awaited calls of the source.
--   AuditLog: src/modules/audit-log/service.ts, `recordEvent`.
--   TenantManagement: src/modules/tenant-management/lifecycle.ts and service.ts. Lifecycle is
--   `deactivateTenant`, `suspendTenant`, `reactivateTenant`, `requestTenantDeletion`; Members is
--   `updateMemberRole`, `removeMember`, `transferOwnership`; Invitations is `inviteUserToTenant` and
--   `acceptInvitation`; Tenants is `createTenant`, the reads, and the access configuration. Method
--   names are those of the source in snake case. Proofs stand in the modules below each.
--   Billing: src/modules/billing/plans.ts and service.ts. Calendar is the billing period, Plans the
--   plans, Lifecycle the account, Payments renewals and failed payments, Metering the entitlements
--   and the usage. The transitions of an account are in Transitions, the outcomes of a metered event in Usage and Recording.
--   RuntimeState: src/modules/tenant-context/runtime-state.ts, the keys that carry a tenant, and in
--   DocumentIndex the class `TenantScopedDocumentIndex`.
--   RateLimit: src/api/middlewares.ts. The state `Limits` holds the maps and sets of the module;
--   Endpoints says which limits a request falls under, Limiters are the three limiting middlewares,
--   Chain is their order, Responses is what `structuredErrorLoggingMiddleware` keeps of responses,
--   Events are sequences of requests, responses, and invalidations of tenants by the services.
--   TenantAccess: src/api/admin/_shared and src/api/admin/tenants/_shared. Requests is what a request
--   says of its caller (auth-context.ts, src/api/utils/tenant.ts), Records the access records of accounts
--   (tenant-user-access.ts), Authorization what a caller may do (tenant-access.ts, authorization.ts).
--   TenantContext: src/modules/tenant-context/middleware.ts and job-context.ts. Routes is the tests on
--   paths, Naming the tenant that a request names, Entry `tenantContextMiddleware`, Jobs the context
--   of jobs; Isolation and Confinement have the proofs on the middleware.
--   Apps: src/modules/apps/service.ts and middleware.ts. Installing is `installApp`, `uninstallApp` and
--   `rotateAppSecret`, Inbound `verifyInboundWebhook`, Publishing `publishEventToSubscribers`; Joins
--   is the joins of queries. The loop over the attempts of a delivery runs on the attempts left, at
--   most three.
--   Themes: src/modules/theme/service.ts.
--   FeatureFlags: src/modules/tenant-context/feature-flags.ts, `isFeatureEnabledForTenant`.
--   Workflows: src/workflows/tenant/create-tenant.ts, the onboarding of a tenant, with the
--   compensation that the workflow engine runs when a later step throws.
--   Tests: a small database, and the theorems at concrete values.
--
-- Parameters: the database (`Sql`, its order of rows left open), the identifiers that `randomUUID`
-- returns, which tokens the column `invitation_token` takes (the model makes it a text, the
-- migration a UUID), the draws of `randomBytes`, what the framework's own workflows return, the
-- HMAC of a payload, what the calls of `fetch` come to, the digest of an audit payload, and that of
-- a feature flag's seed. Times are milliseconds since 1970 as natural numbers, and the clock stands
-- still during a method. Numbers are unbounded: the source's are JavaScript numbers far below 2^53
-- here. The walk over the months of the billing calendar takes as many steps as there are days, and
-- no month is empty, so it always ends inside the month that is looked for.
--
-- Not modelled: failures of the database, but for the check of `tenant_user_access`, the unique
-- index on the slugs of a tenant's themes, and the type of the column `invitation_token`;
-- concurrent requests; row-level security; log lines; the route handlers and the session cookie;
-- the reads that only list rows; analytics; the other workflows; failures of a compensation, and
-- what the framework itself stores; payment and shipping adapters; the admin interface.
pub mod Apps
pub mod AuditLog
pub mod Billing
pub mod FeatureFlags
pub mod Prelude
pub mod RateLimit
pub mod RuntimeState
pub mod Schema
pub mod Sql
pub mod TenantAccess
pub mod TenantContext
pub mod TenantManagement
pub mod Tests
pub mod Themes
pub mod Workflows
pub mod World
