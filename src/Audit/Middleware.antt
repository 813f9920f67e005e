-- ===== src/Audit/Middleware.antt =====
-- workbench-core/audit/src/auditMiddleware.ts with baseExtractor.ts and plugins/baseAuditPlugin.ts: what is
-- audited of a request. The merge of lodash is a parameter, as is the writer of the entries. The
-- middleware calls next() exactly where it returns here.
use research_service_workben.Base.{
  String, Option, none, some, List, [], ◌∷◌, if◌then◌else◌, false, Async, pure, includes, ◌<>◌,
  truthy,
}
use research_service_workben.Authorization.Models.{text, obj, Fields, end, field}
use research_service_workben.Audit.Entries.{
  AuditPlugin, AuditServiceConfig, nothing, append_field, write,
}

pub record Writer (W : Type 0) : Type 0 where
  pub prepare : Option ((metadata entry : Fields) → Async W Fields)
  pub write : (metadata entry : Fields) → Async W (Unit {0})

-- What of a request and of the locals of its response is read.
pub record AuditRequest : Type 0 where
  pub path : String
  pub method : String
  pub original_url : String
  pub forwarded_for : Option String
  pub remote_address : Option String
  pub user_id : Option String

pub record AuditConfig (W : Type 0) : Type 0 where
  pub audit_service : AuditServiceConfig W
  pub exclude_paths : List String
  pub extractor : Option (AuditRequest → Fields)

abbrev prepare_with :
    {W : Type 0} → Option (Fields → Fields → Async W Fields) → Fields → Fields → Async W Fields
prepare_with none metadata entry = pure entry
prepare_with (some prepare) metadata entry = prepare metadata entry

unfoldable pub base_audit_plugin :
    {W : Type 0} → (merge : Fields → Fields → Fields) → Writer W → AuditPlugin W
base_audit_plugin merge writer = record {
  prepare = λ metadata entry.
      prepare_with writer.prepare metadata
        (merge entry (append_field metadata "logEventType" (text "audit")));
  write = writer.write;
}

-- The service with the values that its constructor takes by default.
abbrev pub default_audit_service : {W : Type 0} → AuditPlugin W → AuditServiceConfig W
default_audit_service plugin = record {
  audit_plugin = plugin;
  continue_on_error = false;
  required_audit_values = "actor" ∷ "source" ∷ "statusCode" ∷ "action" ∷ [];
  fields_to_mask = "password" ∷ "accessKey" ∷ [];
}

abbrev or_else : Option String → Option String → Option String
or_else none b = b
or_else (some a) b = some a

abbrev ip_field : Option String → Fields
ip_field none = end
ip_field (some ip) = field "ip" (text ip) end

abbrev uid_of : Option String → String
uid_of none = "user not found"
uid_of (some id) = id

unfoldable pub base_extractor : AuditRequest → Fields
base_extractor r = field "action" (text (r.method <> " " <> r.original_url)) (
    field "source" (obj (ip_field (or_else (truthy r.forwarded_for) r.remote_address)))
      (field "actor" (obj (field "uid" (text (uid_of r.user_id)) end)) end))

abbrev metadata_of : Option (AuditRequest → Fields) → AuditRequest → Fields
metadata_of none r = base_extractor r
metadata_of (some get_metadata) r = get_metadata r

unfoldable pub with_audit :
    {W : Type 0} → AuditConfig W → (now : String) → AuditRequest → Async W (Unit {0})
with_audit c now r =
    if includes r.path c.exclude_paths
    then pure tt
    else write c.audit_service now (metadata_of c.extractor r) nothing
