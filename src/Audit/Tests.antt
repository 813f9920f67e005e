-- ===== src/Audit/Tests.antt =====
-- Runs of the audit service on small inputs.
use research_service_workben.Base.{
  All, true, false, [], ◌∷◌, ◌≡◌, refl, ◌⊎◌, ok, pure, String, ◌||◌, none, List, err, Error, arith,
}
use research_service_workben.Authorization.Models.{num, Json, text, obj, Fields, end, field}
use research_service_workben.Audit.Entries.{
  append_field, body_fields, AuditServiceConfig, value, mask_deep, mask_fields, mask_items,
  is_audit_complete, create_audit_entry, write, has_field,
}
use research_service_workben.Audit.Masking.{IsMaskedObject, write-IsMasked}
use research_service_workben.Audit.Middleware.{Writer, AuditRequest, with_audit}
use research_service_workben.Audit.Defaults.{IsMerge, default_audit, with_audit-refused}

abbrev config : AuditServiceConfig (Unit {0})
config = record {
  audit_plugin = record { prepare = λ m e. pure e; write = λ m e. pure tt };
  continue_on_error = false;
  required_audit_values = "timestamp" ∷ [];
  fields_to_mask = "password" ∷ "accessKey" ∷ [];
}

abbrev sign_up : Json
sign_up = obj (field "user" (text "alice") (field "password" (text "secret") end))

abbrev hidden_password : Fields
hidden_password = field "user" (text "alice") (field "password" (text "****") end)

password_hidden : mask_deep ("password" ∷ []) sign_up ≡ obj hidden_password
unfolding mask_deep mask_fields mask_items
password_hidden = refl

-- A secret that is an object is not hidden, but only masked inside.
object_shown :
    mask_fields ("password" ∷ []) (field "password" (obj (field "value" (text "secret") end)) end)
    ≡ field "password" (obj (field "value" (text "secret") end)) end
unfolding mask_deep mask_fields mask_items
object_shown = refl

written : (write config "0" end (value sign_up) tt).0 ≡ ok tt
unfolding write create_audit_entry is_audit_complete mask_deep mask_fields mask_items
written = refl

write-IsMasked_example :
    (raw entry : Fields) × (v : Unit {0}) × (config.audit_plugin.prepare end
        (append_field (body_fields (value sign_up)) "timestamp" (num "0"))
        tt
      ≡ (ok raw, v))
    × (write config "0" end (value sign_up) tt ≡ config.audit_plugin.write end entry v)
    × (entry ≡ mask_fields config.fields_to_mask raw)
    × IsMaskedObject config.fields_to_mask entry
    × (All (λ k. has_field entry k ≡ true) config.required_audit_values
        ⊎ (config.continue_on_error ≡ true))
write-IsMasked_example = write-IsMasked config "0" end (value sign_up) tt written

-- A merge of objects that share no field.
abbrev joined : Fields → Fields → Fields
joined end b = b
joined (field k v d) b = field k v (joined d b)

joined_fields :
    (a b : Fields) (k : String) → has_field (joined a b) k ≡ (has_field a k || has_field b k)
joined_fields end b k = refl
joined_fields (field j v d) b k = ground (arith, joined_fields d b k)

joined-IsMerge : IsMerge joined
joined-IsMerge = record { has_both = joined_fields }

-- Writes down the entries.
abbrev log : Writer (List Fields)
log = record { prepare = none; write = λ m e w. (ok tt, e ∷ w) }

abbrev upload : AuditRequest
upload = record {
  path = "/datasets";
  method = "POST";
  original_url = "/datasets?x=1";
  forwarded_for = none;
  remote_address = none;
  user_id = none;
}

with_audit-refused_example :
    with_audit (default_audit joined log ("/login" ∷ [])) "0" upload []
    ≡ (err Error.audit_incomplete, [])
with_audit-refused_example =
    with_audit-refused joined joined-IsMerge log ("/login" ∷ []) "0" upload [] refl refl
