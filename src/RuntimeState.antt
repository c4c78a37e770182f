-- ===== src/RuntimeState.antt =====
-- tenant-context/runtime-state.ts: keys that carry their tenant, and what is purged with a tenant.
pub mod Keys
pub mod DocumentIndex
use Prim.Native.String.{◌++◌ as text_append}
use medusa_multi_tenancy.Prelude.{
  String, Bool, ◌||◌, List, [], ◌∷◌, if◌then◌else◌, str_eq, starts_with,
}
use medusa_multi_tenancy.Prelude.Text.{trim, is_truthy, or_else}
use medusa_multi_tenancy.Prelude.Maps.{Map, KeySet, drop_keys}

-- `tenantId?.trim() || 'system'`
unfoldable pub normalize_tenant_id : String → String
normalize_tenant_id tenant_id = or_else (trim tenant_id) "system"

-- the trimmed parts that are left, each behind the delimiter
unfoldable pub join_parts : List String → String
join_parts [] = ""
join_parts (part ∷ parts) =
    let rest = join_parts parts in
    if is_truthy (trim part) then text_append "::" (text_append (trim part) rest) else rest

unfoldable pub build_tenant_scoped_key : String → List String → String
build_tenant_scoped_key tenant_id parts =
    text_append "tenant::" (text_append (normalize_tenant_id tenant_id) (join_parts parts))

unfoldable pub is_tenant_scoped_key : String → String → Bool
is_tenant_scoped_key key tenant_id =
    let own = build_tenant_scoped_key tenant_id [] in
    starts_with key (text_append own "::") || str_eq key own

unfoldable pub purge_tenant_entries_from_map {ℓ} : {T : Type ℓ} → Map T → String → Map T
purge_tenant_entries_from_map map tenant_id =
    drop_keys (λ key. is_tenant_scoped_key key tenant_id) map

unfoldable pub purge_tenant_entries_from_set : KeySet → String → KeySet
purge_tenant_entries_from_set keys tenant_id key =
    if is_tenant_scoped_key key tenant_id then Bool.false else keys key
