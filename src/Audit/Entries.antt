-- ===== src/Audit/Entries.antt =====
-- workbench-core/audit/src/auditService.ts: an audit entry is made from the metadata and the body of a
-- call, masked, tested for the values that it must have, and written. The plugin is a parameter.
use research_service_workben.Base.{
  String, Bool, true, false, not, ◌&&◌, ◌||◌, List, if◌then◌else◌, Async, pure, throw_if, Error,
  ◌>>=◌, ◌>>◌, includes, all, ◌==◌,
}
use research_service_workben.Authorization.Models.{
  Json, text, num, bool, arr, obj, Items, nil, cons, Fields, end, field,
}

-- The entry and the metadata are objects.
pub record AuditPlugin (W : Type 0) : Type 0 where
  -- The entry with what the plugin adds to it.
  pub prepare : (metadata entry : Fields) → Async W Fields
  pub write : (metadata entry : Fields) → Async W (Unit {0})

pub record AuditServiceConfig (W : Type 0) : Type 0 where
  pub audit_plugin : AuditPlugin W
  pub continue_on_error : Bool
  pub required_audit_values : List String
  pub fields_to_mask : List String

-- What a call hands on: nothing, a value, or an error with its name, message and stack.
pub data Body : Type 0 where
  nothing : Body
  value : Json → Body
  failure : (name message stack : String) → Body

abbrev pub has_field : Fields → String → Bool
has_field end k = false
has_field (field j v d) k = j == k || has_field d k

abbrev pub is_object : Json → Bool
is_object (arr vs) = true
is_object (obj d) = true
is_object _ = false

module _ (fields_to_mask : List String) where
  abbrev pub hidden : String → Json → Json
  hidden k v = if includes k fields_to_mask then text "****" else v

  -- An object or an array is masked inside; the items of an array have numbers for keys.
  unfoldable mutual
    pub mask_deep : Json → Json
    mask_deep (arr vs) = arr (mask_items vs)
    mask_deep (obj d) = obj (mask_fields d)
    mask_deep (text s) = text s
    mask_deep (num s) = num s
    mask_deep (bool b) = bool b

    pub mask_items : Items → Items
    mask_items nil = nil
    mask_items (cons v vs) = cons (mask_deep v) (mask_items vs)

    pub mask_fields : Fields → Fields
    mask_fields end = end
    mask_fields (field k (arr vs) d) = field k (arr (mask_items vs)) (mask_fields d)
    mask_fields (field k (obj e) d) = field k (obj (mask_fields e)) (mask_fields d)
    mask_fields (field k (text s) d) = field k (hidden k (text s)) (mask_fields d)
    mask_fields (field k (num s) d) = field k (hidden k (num s)) (mask_fields d)
    mask_fields (field k (bool b) d) = field k (hidden k (bool b)) (mask_fields d)

-- The body of an entry; an error is shown by its parts.
abbrev pub body_fields : Body → Fields
body_fields nothing = end
body_fields (value v) = field "body" v end
body_fields (failure name message stack) =
    field "body"
      (obj (
        field "error" (text name)
          (field "message" (text message) (field "stack" (text stack) end))))
      end

abbrev pub append_field : Fields → String → Json → Fields
append_field end k v = field k v end
append_field (field j w d) k v = field j w (append_field d k v)

module _ {W : Type 0} (c : AuditServiceConfig W) where
  unfoldable pub is_audit_complete : Fields → Bool
  is_audit_complete entry = all (has_field entry) c.required_audit_values

  unfoldable pub create_audit_entry : (now : String) → Fields → Body → Async W Fields
  create_audit_entry now metadata body = do
    entry ← c.audit_plugin.prepare metadata (append_field (body_fields body) "timestamp" (num now))
    pure (mask_fields c.fields_to_mask entry)

  abbrev pub write_entry : Fields → Fields → Async W (Unit {0})
  write_entry metadata entry = do
    throw_if (not (is_audit_complete entry) && not c.continue_on_error) Error.audit_incomplete
    c.audit_plugin.write metadata entry

  unfoldable pub write : (now : String) → Fields → Body → Async W (Unit {0})
  write now metadata body = create_audit_entry now metadata body >>= write_entry metadata
