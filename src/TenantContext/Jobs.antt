-- ===== src/TenantContext/Jobs.antt =====
-- modules/tenant-context/job-context.ts: the tenant of a background job.
use medusa_multi_tenancy.Prelude.{String, Option, none, some, ◌⊎◌, inl, inr}
use medusa_multi_tenancy.World.{PayloadValue}
use medusa_multi_tenancy.TenantAccess.Requests.{normalize_uuid}

-- A job's payload: something else than an object, or an object with its `tenant_id`.
pub data JobPayload : Type 0 where
  other : JobPayload
  object : PayloadValue → JobPayload

-- `extractTenantJobContext`: the `tenant_id` of the context, if there is one. Its `normalizeTenantId`
-- is `normalizeUuid` of the requests.
unfoldable pub extract_tenant_job_context : JobPayload → Option String
extract_tenant_job_context other = none
extract_tenant_job_context (object tenant_id) = normalize_uuid tenant_id

-- `requireTenantJobContext`: the tenant, or the error with the worker's name
abbrev or_missing : String → Option String → String ⊎ String
or_missing worker_name none = inl worker_name
or_missing worker_name (some tenant_id) = inr tenant_id

unfoldable pub require_tenant_job_context : JobPayload → String → String ⊎ String
require_tenant_job_context payload worker_name =
    or_missing worker_name (extract_tenant_job_context payload)
