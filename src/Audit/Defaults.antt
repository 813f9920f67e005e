-- ===== src/Audit/Defaults.antt =====
-- The audit middleware with the extractor and the service that are used by default.
use research_service_workben.Base.{
  String, false, ◌||◌, none, List, [], ◌∷◌, ◌≡◌, refl, ap, ◌∙◌, err, arith, Error, includes, ◌==◌,
}
use research_service_workben.Authorization.Models.{text, num, bool, arr, obj, Fields, end, field}
use research_service_workben.Audit.Entries.{
  AuditPlugin, has_field, append_field, mask_fields, is_audit_complete, create_audit_entry, write,
}
use research_service_workben.Audit.Middleware.{
  Writer, AuditRequest, AuditConfig, base_audit_plugin, default_audit_service, base_extractor,
  with_audit,
}

-- lodash's merge: the object has the fields of both.
pub record IsMerge (merge : Fields → Fields → Fields) : Type 0 where
  pub has_both :
      (a b : Fields) (k : String) → has_field (merge a b) k ≡ (has_field a k || has_field b k)

mask_fields-has_field :
    (fields_to_mask : List String) (d : Fields) (k : String)
    → has_field (mask_fields fields_to_mask d) k ≡ has_field d k
unfolding mask_fields
mask_fields-has_field ms end k = refl
mask_fields-has_field ms (field j (arr vs) d) k =
    ap (λ b. j == k || b) (mask_fields-has_field ms d k)
mask_fields-has_field ms (field j (obj e) d) k =
    ap (λ b. j == k || b) (mask_fields-has_field ms d k)
mask_fields-has_field ms (field j (text s) d) k =
    ap (λ b. j == k || b) (mask_fields-has_field ms d k)
mask_fields-has_field ms (field j (num s) d) k =
    ap (λ b. j == k || b) (mask_fields-has_field ms d k)
mask_fields-has_field ms (field j (bool b) d) k =
    ap (λ b. j == k || b) (mask_fields-has_field ms d k)

-- An entry without a status code is not complete.
no_status_code :
    {W : Type 0} (plugin : AuditPlugin W) (entry : Fields)
    → has_field entry "statusCode" ≡ false
    → is_audit_complete (default_audit_service plugin) entry ≡ false
unfolding is_audit_complete
no_status_code plugin entry h = ground (arith, h)

-- What is audited by default, but for the paths left out.
abbrev pub default_audit :
    {W : Type 0}
    → (Fields → Fields → Fields)
    → Writer W
    → (exclude_paths : List String) → AuditConfig W
default_audit merge writer exclude_paths = record {
  audit_service = default_audit_service (base_audit_plugin merge writer);
  exclude_paths = exclude_paths;
  extractor = none;
}

module _ {W : Type 0} (merge : Fields → Fields → Fields) (merges : IsMerge merge)
    (writer : Writer W) where
  abbrev raw_entry : (now : String) → AuditRequest → Fields
  raw_entry now r =
      merge (field "timestamp" (num now) end)
        (append_field (base_extractor r) "logEventType" (text "audit"))

  raw_entry-no_status_code :
      (now : String) (r : AuditRequest) → has_field (raw_entry now r) "statusCode" ≡ false
  unfolding base_extractor
  raw_entry-no_status_code now r =
      merges.has_both (field "timestamp" (num now) end)
        (append_field (base_extractor r) "logEventType" (text "audit")) "statusCode"

  -- With the default extractor, the base plugin over a writer that prepares nothing, and the default
  -- values of the service, every request to a path that is not excluded is refused, since its entry has
  -- no status code, and nothing is written.
  pub with_audit-refused :
      (exclude_paths : List String) (now : String) (r : AuditRequest) (w : W)
      → writer.prepare ≡ none
      → includes r.path exclude_paths ≡ false
      → with_audit (default_audit merge writer exclude_paths) now r w
        ≡ (err Error.audit_incomplete, w)
  unfolding with_audit write create_audit_entry base_audit_plugin is_audit_complete
  with_audit-refused exclude_paths now r w unprepared audited =
      let entry = mask_fields ("password" ∷ "accessKey" ∷ []) (raw_entry now r) in
      let incomplete = no_status_code (base_audit_plugin merge writer) entry (
        mask_fields-has_field ("password" ∷ "accessKey" ∷ []) (raw_entry now r) "statusCode"
        ∙ raw_entry-no_status_code now r) in
      rw (audited, unprepared, incomplete) refl
