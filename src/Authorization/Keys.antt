-- ===== src/Authorization/Keys.antt =====
-- The items in which ddbDynamicAuthorizationPermissionsPlugin.ts keeps identity permissions: their
-- keys are joined by `|`, and read back by `split`. The parsers of zod accept the texts that the
-- models list; `ZodError` is the name of the error that they throw.
pub mod RoundTrip
use research_service_workben.Base.{
  String, Option, none, some, List, [], ◌∷◌, if◌then◌else◌, Result, ok, err, Error, Dict, ◌==◌,
  ◌<>◌, split, part, ◌>>?◌,
}
use research_service_workben.Authorization.Models.{
  Action, create, read, update, delete, Effect, allow, deny, IdentityType, group, user, Json,
  IdentityPermission,
}

pub record IdentityPermissionItem : Type 0 where
  pub pk : String
  pub sk : String
  pub action : Action
  pub effect : Effect
  pub identity : String
  pub conditions : Option (Dict Json)
  pub fields : Option (List String)
  pub description : Option String

abbrev pub action_text : Action → String
action_text create = "CREATE"
action_text read = "READ"
action_text update = "UPDATE"
action_text delete = "DELETE"

abbrev pub effect_text : Effect → String
effect_text allow = "ALLOW"
effect_text deny = "DENY"

abbrev pub identity_type_text : IdentityType → String
identity_type_text group = "GROUP"
identity_type_text user = "USER"

abbrev pub parse_error : Error
parse_error = Error.other "ZodError"

abbrev pub parse_action : Option String → Result Action
parse_action none = err parse_error
parse_action (some s) =
    if s == "CREATE"
    then ok create
    else if s == "READ"
    then ok read
    else if s == "UPDATE"
    then ok update
    else if s == "DELETE"
    then ok delete
    else err parse_error

abbrev pub parse_effect : Option String → Result Effect
parse_effect none = err parse_error
parse_effect (some s) =
    if s == "ALLOW" then ok allow else if s == "DENY" then ok deny else err parse_error

abbrev pub parse_identity_type : Option String → Result IdentityType
parse_identity_type none = err parse_error
parse_identity_type (some s) =
    if s == "GROUP" then ok group else if s == "USER" then ok user else err parse_error

abbrev pub parse_text : Option String → Result String
parse_text none = err parse_error
parse_text (some s) = ok s

unfoldable pub identity_permissions_partition_key : String → String → String
identity_permissions_partition_key subject_type subject_id = subject_type <> "|" <> subject_id

unfoldable pub identity_permissions_sort_key : Action → Effect → IdentityType → String → String
identity_permissions_sort_key action effect identity_type identity_id =
    action_text action
    <> "|"
    <> effect_text effect
    <> "|"
    <> identity_type_text identity_type
    <> "|"
    <> identity_id

-- The attribute `identity`, by which the secondary index and the filters find a permission.
unfoldable pub identity_key : IdentityType → String → String
identity_key identity_type identity_id = identity_type_text identity_type <> "|" <> identity_id

unfoldable pub transform_identity_permissions_to_item : IdentityPermission → IdentityPermissionItem
transform_identity_permissions_to_item p = record {
  pk = identity_permissions_partition_key p.subject_type p.subject_id;
  sk = identity_permissions_sort_key p.action p.effect p.identity_type p.identity_id;
  action = p.action;
  effect = p.effect;
  identity = identity_key p.identity_type p.identity_id;
  conditions = p.conditions;
  fields = p.fields;
  description = p.description;
}

unfoldable pub decompose_partition_key : String → Option String × Option String
decompose_partition_key key = (part 0 (split b'|' key), part 1 (split b'|' key))

pub record SortKeyParts : Type 0 where
  pub action : Option String
  pub effect : Option String
  pub identity_type : Option String
  pub identity_id : Option String

unfoldable pub decompose_sort_key : String → SortKeyParts
decompose_sort_key key =
    let values = split b'|' key in
    record {
      action = part 0 values;
      effect = part 1 values;
      identity_type = part 2 values;
      identity_id = part 3 values;
    }

-- `IdentityPermissionParser.parse` of the parts
abbrev pub parse_permission :
    Option String × Option String
    → SortKeyParts
    → IdentityPermissionItem
    → Result IdentityPermission
parse_permission (subject_type, subject_id) k item = parse_action k.action >>? λ action.
    parse_effect k.effect >>? λ effect. parse_text subject_type >>? λ type_text.
    parse_text subject_id >>? λ id_text. parse_identity_type k.identity_type >>? λ identity_type.
    parse_text k.identity_id >>? λ identity_id. ok (record {
      identity_type = identity_type;
      identity_id = identity_id;
      effect = effect;
      action = action;
      subject_type = type_text;
      subject_id = id_text;
      fields = item.fields;
      conditions = item.conditions;
      description = item.description;
    })

unfoldable pub transform_item_to_identity_permission :
    IdentityPermissionItem → Result IdentityPermission
transform_item_to_identity_permission item =
    parse_permission (decompose_partition_key item.pk) (decompose_sort_key item.sk) item
