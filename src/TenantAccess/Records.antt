-- ===== src/TenantAccess/Records.antt =====
-- api/admin/_shared/tenant-user-access.ts: the access record of an account, which says whether it is a
-- platform admin's and which tenant it belongs to.
pub mod Resolving
use medusa_multi_tenancy.Prelude.{
  ℕ, String, Bool, true, false, not, ◌&&◌, ◌||◌, Option, none, some, List, [], ◌∷◌, map, filter,
  if◌then◌else◌, str_eq, leb, ltb, or_default, is_some,
}
use medusa_multi_tenancy.Prelude.Text.{
  trim, to_lower_case, upper_char, normalize_email, is_truthy, or_null, or_else, before, split,
  contains,
}
use medusa_multi_tenancy.Schema.{
  Tenant, Membership, admin, enabled, TenantUserAccess, TenantAccessRole, platform_admin,
  tenant_admin,
}
use medusa_multi_tenancy.Sql.Rows.{first}
use medusa_multi_tenancy.World.{
  Env, World, Exec, ◌>>=◌, ◌>>◌, pure, gets, or_throw, throw_if, modify, draw_uuid, transaction,
  tenant_not_found, access_record_unresolved, access_scope_violated, user_email_required,
  platform_admins_only, active_tenant_not_persisted,
}
use medusa_multi_tenancy.TenantManagement.Members.{has_member_id, member_with_email}
use medusa_multi_tenancy.TenantManagement.Tenants.{is_tenant, new_tenant, owner_membership}
use medusa_multi_tenancy.TenantAccess.Requests.{AdminRequest, get_actor_email}
use Prim.Native.Char.{Char, code}
use Prim.Native.String.{◌++◌ as append, slice}

-- The variables of `process.env` that are read.
pub record ProcessEnv : Type 0 where
  pub platform_admin_emails : Option String
  pub auto_create_tenant_on_first_login : Option String
  pub allow_legacy_tenant_header : Option String
  pub node_env : Option String

unfoldable pub parse_boolean_env : Option String → Bool → Bool
parse_boolean_env none default_value = default_value
parse_boolean_env (some value) default_value =
    contains (to_lower_case (trim value)) ("1" ∷ "true" ∷ "yes" ∷ "on" ∷ [])

-- `getPlatformAdminEmails().has(...)`
unfoldable pub is_platform_admin_email : ProcessEnv → String → Bool
is_platform_admin_email penv email =
    contains (normalize_email email)
      (filter is_truthy (map normalize_email (split 44 (or_default penv.platform_admin_emails ""))))

abbrev pub auto_create_enabled : ProcessEnv → Bool
auto_create_enabled penv = parse_boolean_env penv.auto_create_tenant_on_first_login true

abbrev pub is_legacy_tenant_header_enabled : ProcessEnv → Bool
is_legacy_tenant_header_enabled penv = parse_boolean_env penv.allow_legacy_tenant_header false

is_lower_alnum : Char → Bool
is_lower_alnum c = let n = code c in (leb 48 n && leb n 57) || (leb 97 n && leb n 122)

is_alnum : Char → Bool
is_alnum c =
    let n = code c in (leb 48 n && leb n 57) || (leb 97 n && leb n 122) || (leb 65 n && leb n 90)

-- The words of the characters that are kept, joined by a separator: a `replace` of every run of other
-- characters, and of the separators at both ends. `started` says that a word came before, `gap` that
-- other characters came after it.
words_joined : (Char → Bool) → Char → Bool → Bool → String → String
words_joined keep sep started gap String.[] = String.[]
words_joined keep sep started gap (String.◌∷◌ c s) =
    let skipped = words_joined keep sep started true s in
    let taken = words_joined keep sep true false s in
    if keep c
    then (if started && gap then String.◌∷◌ sep (String.◌∷◌ c taken) else String.◌∷◌ c taken)
    else skipped

dash : Char
dash = Prim.Native.String.char_at "-" 0

space : Char
space = Prim.Native.String.char_at " " 0

-- `replace(/\b\w/g, (char) => char.toUpperCase())`, on words between spaces
title_case : Bool → String → String
title_case at_start String.[] = String.[]
title_case at_start (String.◌∷◌ c s) =
    let rest = title_case (not (is_alnum c)) s in
    String.◌∷◌ (if at_start then upper_char c else c) rest

-- `slugifyEmailForTenant`, of the identifier that it draws
unfoldable pub slugify_email_for_tenant : String → String → String
unfolding words_joined is_lower_alnum dash
slugify_email_for_tenant email uuid =
    let local_part = or_else (before 64 email) "tenant" in
    let safe_base =
      or_else (words_joined is_lower_alnum dash false false (to_lower_case local_part)) "tenant" in
    slice (append safe_base (append "-" (before 45 uuid))) 0 63

unfoldable pub build_default_tenant_name : String → String
unfolding words_joined is_alnum space title_case
build_default_tenant_name email =
    let local_part = or_else (before 64 email) "Tenant" in
    let normalized = words_joined is_alnum space false false local_part in
    append (or_else (title_case true normalized) "Tenant") " Workspace"

-- `where({ user_email })`
abbrev pub has_email : String → TenantUserAccess → Bool
has_email email a = str_eq a.user_email email

-- `where({ id })`
abbrev pub has_access_id : String → TenantUserAccess → Bool
has_access_id id a = str_eq a.id id

abbrev pub role_for : Bool → TenantAccessRole
role_for true = platform_admin
role_for false = tenant_admin

abbrev pub same_access_role : TenantAccessRole → TenantAccessRole → Bool
same_access_role platform_admin platform_admin = true
same_access_role tenant_admin tenant_admin = true
same_access_role _ _ = false

abbrev pub same_flag : Bool → Bool → Bool
same_flag true b = b
same_flag false b = not b

-- the record that the first request of an account inserts
abbrev pub new_access : String → String → Bool → Option String → Bool → ℕ → TenantUserAccess
new_access id email is_admin assigned auto_provisioned now = record {
  id = id;
  user_id = none;
  user_email = email;
  tenant_id = if is_admin then none else assigned;
  role = role_for is_admin;
  is_platform_admin = is_admin;
  active_tenant_id = if is_admin then none else assigned;
  is_auto_provisioned = auto_provisioned;
  updated_at = now;
}

-- `tenant_user_access_scope_check`: a platform admin has no tenant, and another account has one
abbrev pub is_scoped : Bool → Option String → Bool
is_scoped is_admin tenant_id = if is_admin then not (is_some tenant_id) else is_some tenant_id

-- what `shouldSyncPlatformState` writes
abbrev pub synced : Bool → ℕ → TenantUserAccess → TenantUserAccess
synced is_admin now a = record a {
  is_platform_admin = is_admin;
  role = role_for is_admin;
  tenant_id = if is_admin then none else a.tenant_id;
  active_tenant_id = if is_admin then a.active_tenant_id else a.tenant_id;
  updated_at = now;
}

abbrev pub is_out_of_sync : Bool → TenantUserAccess → Bool
is_out_of_sync is_admin a =
    not (same_flag a.is_platform_admin is_admin)
    || not (same_access_role a.role (role_for is_admin))

-- `ResolvedTenantUserAccess`
pub record ResolvedAccess : Type 0 where
  pub actor_email : Option String
  pub is_platform_admin : Bool
  pub role : TenantAccessRole
  pub assigned_tenant_id : Option String
  pub active_tenant_id : Option String
  pub effective_tenant_id : Option String
  pub access_record : Option TenantUserAccess
  pub auto_provisioned : Bool

-- the answer where the request names no account
abbrev pub no_access : ResolvedAccess
no_access = record {
  actor_email = none;
  is_platform_admin = false;
  role = tenant_admin;
  assigned_tenant_id = none;
  active_tenant_id = none;
  effective_tenant_id = none;
  access_record = none;
  auto_provisioned = false;
}

-- `value || null`
abbrev pub truthy_or_null : Option String → Option String
truthy_or_null none = none
truthy_or_null (some s) = or_null s

abbrev pub resolved_of : String → TenantUserAccess → Bool → ResolvedAccess
resolved_of email a auto_provisioned = record {
  actor_email = some email;
  is_platform_admin = a.is_platform_admin;
  role = role_for a.is_platform_admin;
  assigned_tenant_id = truthy_or_null a.tenant_id;
  active_tenant_id = truthy_or_null a.active_tenant_id;
  effective_tenant_id =
      if a.is_platform_admin then truthy_or_null a.active_tenant_id else truthy_or_null a.tenant_id;
  access_record = some a;
  auto_provisioned = auto_provisioned || a.is_auto_provisioned;
}

module _ (env : Env) where
  unfoldable pub create_tenant_for_user : String → Exec env String
  unfolding slugify_email_for_tenant build_default_tenant_name
  create_tenant_for_user email = do
    tenant_id ← draw_uuid
    suffix ← draw_uuid
    modify λ w. record w {
      tenants =
          env.sql.insert
            (new_tenant tenant_id (build_default_tenant_name email)
              (slugify_email_for_tenant email suffix) email w.now)
            w.tenants;
    }
    membership_id ← draw_uuid
    modify λ w. record w {
      memberships =
          env.sql.insert (owner_membership membership_id tenant_id email w.now) w.memberships;
    }
    pure tenant_id

  -- `getTenantUserAccessByEmail`
  abbrev pub access_of : String → World env → Option TenantUserAccess
  access_of email w = first env.sql (has_email email) w.user_access

  module _ (penv : ProcessEnv) (email : String) (is_admin : Bool) where
    -- the tenant of a new account, and whether it was created for it
    unfoldable pub provision : Exec env (Option String × Bool)
    provision =
        let create = create_tenant_for_user email >>= λ tenant_id. pure (some tenant_id, true) in
        if not is_admin && auto_create_enabled penv then create else pure (none, false)

    -- An account without a record gets one. The database refuses rows that break the check.
    unfoldable pub insert_access : Exec env (Option TenantUserAccess × Bool)
    insert_access = do
      assigned ← provision
      id ← draw_uuid
      throw_if (not (is_scoped is_admin (if is_admin then none else assigned.0)))
          access_scope_violated
      modify λ w. record w {
        user_access =
            env.sql.insert (new_access id email is_admin assigned.0 assigned.1 w.now) w.user_access;
      }
      inserted ← gets (access_of email)
      pure (inserted, assigned.1)

    -- the update of `shouldSyncPlatformState`, under the check of the database
    unfoldable pub store_synced : TenantUserAccess → Exec env (Option TenantUserAccess)
    store_synced a = do
      throw_if (not (is_scoped is_admin (if is_admin then none else a.tenant_id)))
          access_scope_violated
      modify λ w. record w {
        user_access = env.sql.update (has_access_id a.id) (synced is_admin w.now) w.user_access;
      }
      gets (access_of email)

    unfoldable pub sync_access : TenantUserAccess → Exec env (Option TenantUserAccess)
    sync_access a =
        let write = store_synced a in if is_out_of_sync is_admin a then write else pure (some a)

  module _ (penv : ProcessEnv) where
    abbrev pub existing_or :
        Exec env (Option TenantUserAccess × Bool)
        → Option TenantUserAccess
        → Exec env (Option TenantUserAccess × Bool)
    existing_or insert none = insert
    existing_or insert (some a) = pure (some a, false)

    -- the transaction, for an account and its place in `PLATFORM_ADMIN_EMAILS`
    unfoldable pub settle_access : String → Bool → Exec env (Option TenantUserAccess × Bool)
    settle_access email is_admin = do
      existing ← gets (access_of email)
      found ← existing_or (insert_access penv email is_admin) existing
      account ← or_throw found.0 access_record_unresolved
      settled ← sync_access penv email is_admin account
      pure (settled, found.1)

    -- A record that the update has lost ends the source's method with a TypeError.
    unfoldable pub resolve_account : String → Exec env ResolvedAccess
    resolve_account email = do
      settled ← transaction (settle_access email (is_platform_admin_email penv email))
      access ← or_throw settled.0 access_record_unresolved
      pure (resolved_of email access settled.1)

    abbrev resolve_actor : Option String → Exec env ResolvedAccess
    resolve_actor none = pure no_access
    resolve_actor (some email) = resolve_account email

    -- The database connection is always registered.
    unfoldable pub resolve_tenant_user_access : AdminRequest → Exec env ResolvedAccess
    resolve_tenant_user_access req = resolve_actor (get_actor_email req)

    abbrev truthy_record : ResolvedAccess → Option TenantUserAccess
    truthy_record access = if access.is_platform_admin then access.access_record else none

    -- a tenant is given, and not found
    abbrev is_unknown : Option String → World env → Bool
    is_unknown none w = false
    is_unknown (some tenant_id) w = not (is_some (first env.sql (is_tenant tenant_id) w.tenants))

    -- `tenantId` is a text that is not empty, or null.
    unfoldable pub activate_platform_admin_tenant :
        AdminRequest → Option String → Exec env TenantUserAccess
    activate_platform_admin_tenant req tenant_id = do
      _ ← or_throw (get_actor_email req) user_email_required
      access ← resolve_tenant_user_access req
      own ← or_throw (truthy_record access) platform_admins_only
      unknown ← gets (is_unknown tenant_id)
      throw_if unknown tenant_not_found
      modify λ w. record w {
        user_access =
            env.sql.update (has_access_id own.id)
              (λ a. record a { active_tenant_id = tenant_id; updated_at = w.now }) w.user_access;
      }
      updated ← gets (λ w. first env.sql (has_access_id own.id) w.user_access)
      or_throw updated active_tenant_not_persisted

  -- what `assignUserToTenant` writes into the record of an account
  abbrev pub assigned_to : String → ℕ → TenantUserAccess → TenantUserAccess
  assigned_to tenant_id now a = record a {
    tenant_id = some tenant_id;
    role = tenant_admin;
    is_platform_admin = false;
    active_tenant_id = some tenant_id;
    updated_at = now;
  }

  abbrev write_assignment : String → String → Option TenantUserAccess → Exec env Unit
  write_assignment email tenant_id (some a) = modify λ w. record w {
    user_access = env.sql.update (has_access_id a.id) (assigned_to tenant_id w.now) w.user_access;
  }
  write_assignment email tenant_id none = do
    id ← draw_uuid
    modify λ w. record w {
      user_access =
          env.sql.insert (new_access id email false (some tenant_id) false w.now) w.user_access;
    }

  abbrev write_membership : String → String → Option Membership → Exec env Unit
  write_membership email tenant_id (some m) = modify λ w. record w {
    memberships =
        env.sql.update (has_member_id m.id)
          (λ m. record m { role = admin; status = enabled; updated_at = w.now }) w.memberships;
  }
  write_membership email tenant_id none = do
    id ← draw_uuid
    modify λ w. record w {
      memberships =
          env.sql.insert
            (record {
              id = id;
              tenant_id = tenant_id;
              user_email = email;
              role = admin;
              status = enabled;
              created_at = w.now;
              updated_at = w.now;
            })
            w.memberships;
    }

  unfoldable pub assign_user_to_tenant : String → String → Exec env (Option TenantUserAccess)
  assign_user_to_tenant user_email tenant = do
    let email = normalize_email user_email
    let tenant_id = trim tenant
    known ← gets (λ w. first env.sql (is_tenant tenant_id) w.tenants)
    _ ← or_throw known tenant_not_found
    existing ← gets (access_of email)
    write_assignment email tenant_id existing
    membership ← gets (λ w. first env.sql (member_with_email tenant_id email) w.memberships)
    write_membership email tenant_id membership
    gets (access_of email)
