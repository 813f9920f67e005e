-- ===== src/Environments/TypeConfigs.antt =====
-- workbench-core/environments/src/services/environmentTypeConfigService.ts: the configurations of a type
-- of environments. The formats of a configuration's texts are a parameter.
use research_service_workben.Base.{
  ℕ, String, Bool, true, false, not, ◌&&◌, ◌||◌, Option, none, some, List, [], ◌∷◌, ◌++◌, map,
  if◌then◌else◌, Result, ok, err, Error, Async, pure, throw, throw_if, lift, try_catch, ◌>>=◌, ◌>>◌,
  ◌>>?◌, map_result, lookup, ◌==◌, ◌<>◌, Page,
}
use research_service_workben.Authorization.Models.{Json, text, arr, obj}
use research_service_workben.Accounts.Models.{FilterValue}
use research_service_workben.Queries.{QueryParams, add_pagination_token}
use research_service_workben.Environments.Models.{
  Item, need, optional, as_text, required, array, parse_param, zod_error, of_list, of_dict,
}
use research_service_workben.Environments.Items.{Key}
use research_service_workben.Environments.Listing.{page_size_of}
use research_service_workben.Environments.Types.{TypeTable, EnvironmentType, get_environment_type}

pub record EnvironmentTypeConfig : Type 0 where
  pub id : String
  pub type_name : String
  pub description : Option String
  pub name : Option String
  pub created_at : String
  pub updated_at : String
  pub estimated_cost : Option String
  pub params : List (String × String)
  pub status : String

pub record ConfigTable (W : Type 0) : Type 0 where
  pub types : TypeTable W
  pub get_item : Key → Async W (Option Item)
  pub get_items : List Key → Async W (List Item)
  pub update_item : Key → Item → Async W (Option Item)
  pub get_paginated_items : QueryParams → Async W (Page Item)
  pub from_token : String → Result String
  pub has_format : EnvironmentTypeConfig → Bool

pub record CreateEnvironmentTypeConfigRequest : Type 0 where
  pub env_type_id : String
  pub type_name : String
  pub description : String
  pub name : String
  pub estimated_cost : Option String
  pub params : List (String × String)

pub record UpdateEnvironmentTypeConfigRequest : Type 0 where
  pub env_type_id : String
  pub env_type_config_id : String
  pub description : Option String
  pub estimated_cost : Option String

unfoldable pub build_env_type_config_pk_sk : String → Key
build_env_type_config_pk_sk id = record { pk = "ETC#" <> id; sk = "ETC#" <> id }

abbrev param_value : String × String → Json
param_value (k, v) = obj (of_dict (("key", text k) ∷ ("value", text v) ∷ []))

abbrev attribute : String → Option String → Item
attribute k none = []
attribute k (some v) = (k, text v) ∷ []

-- The properties of a parsed configuration, by their names.
abbrev config_item : EnvironmentTypeConfig → Item
config_item c =
    ("id", text c.id) ∷ ("type", text c.type_name) ∷ attribute "description" c.description
    ++ attribute "name" c.name
    ++ (("createdAt", text c.created_at) ∷ ("updatedAt", text c.updated_at) ∷ [])
    ++ attribute "estimatedCost" c.estimated_cost
    ++ (("params", arr (of_list (map param_value c.params))) ∷ ("status", text c.status) ∷ [])

abbrev new_config : (id now : String) → CreateEnvironmentTypeConfigRequest → EnvironmentTypeConfig
new_config id now r = record {
  id = id;
  type_name = r.type_name;
  description = some r.description;
  name = some r.name;
  created_at = now;
  updated_at = now;
  estimated_cost = r.estimated_cost;
  params = r.params;
  status = "AVAILABLE";
}

abbrev is_config_status : String → Bool
is_config_status s = s == "AVAILABLE" || s == "DELETED"

abbrev or_available : Option String → String
or_available none = "AVAILABLE"
or_available (some s) = s

abbrev configs_query : ℕ → String → QueryParams
configs_query limit env_type_id = record {
  resource_type = "envTypeConfig";
  index = "getResourceByDependency";
  sort_key = some "dependency";
  condition = ("eq", FilterValue.text env_type_id) ∷ [];
  forward = none;
  limit = limit;
  start = none;
}

abbrev is_text_value : Option Json → String → Bool
is_text_value (some (text s)) v = s == v
is_text_value _ v = false

-- The error with which an absent type is reported.
abbrev absent_type : Error → Error
absent_type Error.not_found = Error.bad_request
absent_type e = e

module _ {W : Type 0} (t : ConfigTable W) where
  abbrev checked : EnvironmentTypeConfig → Result EnvironmentTypeConfig
  checked c = if is_config_status c.status && t.has_format c then ok c else err zod_error

  unfoldable pub parse_environment_type_config : Item → Result EnvironmentTypeConfig
  parse_environment_type_config d = need "id" d >>? λ id. need "type" d >>? λ type_name.
      optional as_text (lookup "description" d) >>? λ description.
      optional as_text (lookup "name" d) >>? λ name. need "createdAt" d >>? λ created_at.
      need "updatedAt" d >>? λ updated_at.
      optional as_text (lookup "estimatedCost" d) >>? λ estimated_cost.
      required (array parse_param) (lookup "params" d) >>? λ params.
      optional as_text (lookup "status" d) >>? λ status. checked (record {
        id = id;
        type_name = type_name;
        description = description;
        name = name;
        created_at = created_at;
        updated_at = updated_at;
        estimated_cost = estimated_cost;
        params = params;
        status = or_available status;
      })

  -- A configuration of another type counts as absent.
  abbrev found_config : String → Option Item → Result EnvironmentTypeConfig
  found_config env_type_id none = err Error.not_found
  found_config env_type_id (some item) =
      if is_text_value (lookup "dependency" item) env_type_id
      then parse_environment_type_config item
      else err Error.not_found

  unfoldable pub get_environment_type_config :
      (env_type_id id : String) → Async W EnvironmentTypeConfig
  get_environment_type_config env_type_id id = do
    item ← t.get_item (build_env_type_config_pk_sk id)
    lift (found_config env_type_id item)

  abbrev no_texts : List String → Bool
  no_texts [] = true
  no_texts (x ∷ xs) = false

  unfoldable pub get_environment_type_configs : List String → Async W (List EnvironmentTypeConfig)
  get_environment_type_configs ids = do
    throw_if (no_texts ids) Error.internal
    items ← t.get_items (map build_env_type_config_pk_sk ids)
    lift (map_result parse_environment_type_config items)

  unfoldable pub soft_delete_environment_type_config :
      (env_type_id id : String) → Async W (Unit {0})
  soft_delete_environment_type_config env_type_id id =
      get_environment_type_config env_type_id id
      >> (try_catch
          (t.update_item (build_env_type_config_pk_sk id)
              (("resourceType", text "envTypeConfig_deleted") ∷ ("status", text "DELETED") ∷ [])
            >> pure tt)
          (λ e. throw Error.internal))

  unfoldable pub list_environment_type_configs :
      (env_type_id : String)
      → Option ℕ
      → (token : Option String) → Async W (Page EnvironmentTypeConfig)
  list_environment_type_configs env_type_id page_size token = do
    query ← lift (
        add_pagination_token t.from_token token
          (configs_query (page_size_of page_size) env_type_id))
    page ← t.get_paginated_items query
    items ← lift (map_result parse_environment_type_config page.items)
    pure (record { items = items; pagination_token = page.pagination_token })

  abbrev returned_config : Option Item → Result EnvironmentTypeConfig
  returned_config none = err Error.internal
  returned_config (some item) = parse_environment_type_config item

  abbrev approved_type : String → Async W EnvironmentType
  approved_type env_type_id =
      try_catch
        (do
          env_type ← get_environment_type t.types env_type_id
          throw_if (not (env_type.status == "APPROVED")) Error.bad_request
          pure env_type)
        (λ e. throw (absent_type e))

  unfoldable pub create_new_environment_type_config :
      (id now : String) → CreateEnvironmentTypeConfigRequest → Async W EnvironmentTypeConfig
  create_new_environment_type_config id now r = do
    env_type ← approved_type r.env_type_id
    config ← lift (checked (new_config id now r))
    item ← t.update_item (build_env_type_config_pk_sk id) (
        config_item config
        ++ (("resourceType", text "envTypeConfig")
            ∷ ("dependency", text r.env_type_id)
            ∷ ("productId", text env_type.product_id)
            ∷ ("provisioningArtifactId", text env_type.provisioning_artifact_id)
            ∷ []))
    lift (returned_config item)

  unfoldable pub update_environment_type_config :
      (now : String) → UpdateEnvironmentTypeConfigRequest → Async W EnvironmentTypeConfig
  update_environment_type_config now r = do
    get_environment_type_config r.env_type_id r.env_type_config_id
    item ← t.update_item (build_env_type_config_pk_sk r.env_type_config_id) (
        attribute "description" r.description
        ++ attribute "estimatedCost" r.estimated_cost
        ++ (("updatedAt", text now) ∷ []))
    lift (returned_config item)
