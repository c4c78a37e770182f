-- ===== src/AuditLog.antt =====
-- audit-log/service.ts
use medusa_multi_tenancy.Prelude.{String, Option, none, some}
use medusa_multi_tenancy.Prelude.Text.{normalize_email, or_else}
use medusa_multi_tenancy.Schema.{AuditEntry}
use medusa_multi_tenancy.World.{Env, World, Exec, Payload, ◌>>=◌, draw_uuid, modify}

-- `actor?.trim().toLowerCase() || 'system'`
unfoldable pub audit_actor : Option String → String
audit_actor none = "system"
audit_actor (some actor) = or_else (normalize_email actor) "system"

abbrev pub audit_entry :
    (env : Env) → String → String → String → String → String → Payload → World env → AuditEntry
audit_entry env id actor tenant_id action resource_id payload w = record {
  id = id;
  actor = actor;
  tenant_id = tenant_id;
  action = action;
  resource_id = resource_id;
  payload_hash = env.payload_digest payload;
  event_timestamp = w.now;
}

-- `recordEvent`, with the time of the call as its timestamp
abbrev pub record_event :
    (env : Env) → Option String → String → String → String → Payload → Exec env Unit
record_event env actor tenant_id action resource_id payload = do
  id ← draw_uuid
  modify λ w. record w {
    audit_log =
        env.sql.insert
          (audit_entry env id (audit_actor actor) tenant_id action resource_id payload w)
          w.audit_log;
  }
