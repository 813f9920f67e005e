-- ===== src/Environments/Types.antt =====
-- workbench-core/environments/src/services/environmentTypeService.ts: the types of environments. The
-- table is a parameter, as are the time, the two regular expressions of a request's ids, and the
-- parser of a template's parameters.
pub mod Approval
use research_service_workben.Base.{
  ℕ, String, Bool, true, false, not, ◌&&◌, ◌||◌, Option, none, some, List, [], ◌∷◌, ◌++◌,
  if◌then◌else◌, Result, ok, err, Error, Async, pure, throw, throw_if, lift, ◌>>=◌, ◌>>◌, ◌>>?◌,
  map_result, lookup, ◌==◌, ◌<>◌, Page,
}
use research_service_workben.Authorization.Models.{Json, text}
use research_service_workben.Accounts.Models.{FilterRequest, SortRequest}
use research_service_workben.Queries.{
  QueryParams, validate_single_sort_and_filter, get_filter_query_params, get_sort_query_params,
  changed, add_pagination_token,
}
use research_service_workben.Environments.Models.{Item, need, zod_error}
use research_service_workben.Environments.Items.{Key, build_dynamo_db_pk_sk}
use research_service_workben.Environments.Listing.{ListEnvironmentsRequest, page_size_of}

pub record EnvironmentType : Type 0 where
  pub id : String
  pub product_id : String
  pub provisioning_artifact_id : String
  pub description : String
  pub name : String
  pub type_name : String
  pub params : Json
  pub status : String
  pub created_at : String
  pub updated_at : String

pub record TypeTable (W : Type 0) : Type 0 where
  pub get_item : Key → Async W (Option Item)
  -- Sets attributes; returns the item's attributes.
  pub update_item : Key → Item → Async W (Option Item)
  pub get_paginated_items : QueryParams → Async W (Page Item)
  -- The configurations that depend on a type, the first page of them.
  pub configs_by_dependency : String → Async W (List Item)
  pub from_token : String → Result String
  pub to_lower_case : String → String
  pub is_product_id : String → Bool
  pub is_provisioning_artifact_id : String → Bool
  pub is_cfn_template_parameters : Json → Bool

pub record UpdateEnvironmentTypeRequest : Type 0 where
  pub env_type_id : String
  pub name : Option String
  pub description : Option String
  pub status : Option String

pub record CreateEnvironmentTypeRequest : Type 0 where
  pub product_id : String
  pub provisioning_artifact_id : String
  pub description : String
  pub name : String
  pub type_name : String
  pub params : Json
  pub status : String

abbrev pub is_type_status : String → Bool
is_type_status s = s == "APPROVED" || s == "NOT_APPROVED"

abbrev required_value : Option Json → Result Json
required_value none = err zod_error
required_value (some v) = ok v

abbrev attribute : String → Option String → Item
attribute k none = []
attribute k (some v) = (k, text v) ∷ []

-- The attributes that an update sets: `createdAt` is among them.
unfoldable pub updated_env_type : (now : String) → UpdateEnvironmentTypeRequest → Item
updated_env_type now r =
    attribute "name" r.name
    ++ attribute "description" r.description
    ++ attribute "status" r.status
    ++ (("createdAt", text now) ∷ ("updatedAt", text now) ∷ [])

abbrev env_type_id : CreateEnvironmentTypeRequest → String
env_type_id p = "et-" <> p.product_id <> "," <> p.provisioning_artifact_id

abbrev new_env_type : (now : String) → CreateEnvironmentTypeRequest → Item
new_env_type now p =
    ("id", text (env_type_id p))
    ∷ ("createdAt", text now)
    ∷ ("updatedAt", text now)
    ∷ ("productId", text p.product_id)
    ∷ ("provisioningArtifactId", text p.provisioning_artifact_id)
    ∷ ("description", text p.description)
    ∷ ("name", text p.name)
    ∷ ("type", text p.type_name)
    ∷ ("params", p.params)
    ∷ ("status", text p.status)
    ∷ []

abbrev pub is_status : Option String → String → Bool
is_status none s = false
is_status (some a) s = a == s

abbrev type_gsi_names : List String
type_gsi_names = "Name" ∷ "Status" ∷ []

abbrev all_types_query : ℕ → QueryParams
all_types_query limit = record {
  resource_type = "envType";
  index = "getResourceByCreatedAt";
  sort_key = none;
  condition = [];
  forward = none;
  limit = limit;
  start = none;
}

abbrev pub some_config : List Item → Bool
some_config [] = false
some_config (x ∷ xs) = true

module _ {W : Type 0} (t : TypeTable W) where
  unfoldable pub parse_environment_type : Item → Result EnvironmentType
  parse_environment_type d = need "id" d >>? λ id. need "productId" d >>? λ product_id.
      need "provisioningArtifactId" d >>? λ provisioning_artifact_id.
      need "description" d >>? λ description. need "name" d >>? λ name.
      need "type" d >>? λ type_name. required_value (lookup "params" d) >>? λ params.
      need "status" d >>? λ status. need "createdAt" d >>? λ created_at.
      need "updatedAt" d >>? λ updated_at.
      if t.is_cfn_template_parameters params && is_type_status status
      then ok (record {
        id = id;
        product_id = product_id;
        provisioning_artifact_id = provisioning_artifact_id;
        description = description;
        name = name;
        type_name = type_name;
        params = params;
        status = status;
        created_at = created_at;
        updated_at = updated_at;
      })
      else err zod_error

  abbrev pub found_type : Option Item → Result EnvironmentType
  found_type none = err Error.not_found
  found_type (some item) = parse_environment_type item

  unfoldable pub get_environment_type : String → Async W EnvironmentType
  get_environment_type id = do
    item ← t.get_item (build_dynamo_db_pk_sk id "ET")
    lift (found_type item)

  abbrev list_query : ListEnvironmentsRequest → Result QueryParams
  list_query r = validate_single_sort_and_filter r.filter r.sort >>? λ valid.
      get_filter_query_params t.to_lower_case r.filter type_gsi_names >>? λ by_filter.
      get_sort_query_params t.to_lower_case r.sort type_gsi_names >>? λ by_sort.
      add_pagination_token t.from_token r.pagination_token
        (changed (changed (all_types_query (page_size_of r.page_size)) by_filter) by_sort)

  unfoldable pub list_environment_types : ListEnvironmentsRequest → Async W (Page EnvironmentType)
  list_environment_types r = do
    query ← lift (list_query r)
    page ← t.get_paginated_items query
    items ← lift (map_result parse_environment_type page.items)
    pure (record { items = items; pagination_token = page.pagination_token })

  abbrev pub check_unused : Bool → EnvironmentType → Async W (Unit {0})
  check_unused false env_type = pure tt
  check_unused true env_type = t.configs_by_dependency env_type.id >>= λ configs.
      throw_if (some_config configs) (Error.other "Conflict")

  -- A type that has configurations stays approved.
  unfoldable pub validate_status_change : Option String → EnvironmentType → Async W (Unit {0})
  validate_status_change status env_type =
      check_unused (is_status status "NOT_APPROVED" && env_type.status == "APPROVED") env_type

  abbrev pub returned_type : Option Item → Result EnvironmentType
  returned_type none = err Error.internal
  returned_type (some item) = parse_environment_type item

  abbrev pub store_type : String → Item → Async W EnvironmentType
  store_type id values = do
    item ← t.update_item (build_dynamo_db_pk_sk id "ET") values
    lift (returned_type item)

  unfoldable pub update_environment_type :
      (now : String) → UpdateEnvironmentTypeRequest → Async W EnvironmentType
  update_environment_type now r = do
    env_type ← get_environment_type r.env_type_id
    validate_status_change r.status env_type
    store_type r.env_type_id (updated_env_type now r)

  unfoldable pub create_new_environment_type :
      (now : String) → CreateEnvironmentTypeRequest → Async W EnvironmentType
  create_new_environment_type now p = do
    throw_if (not (t.is_product_id p.product_id)) Error.bad_request
    throw_if (not (t.is_provisioning_artifact_id p.provisioning_artifact_id)) Error.bad_request
    valid ← lift (parse_environment_type (new_env_type now p))
    store_type (env_type_id p) (new_env_type now p ++ ("resourceType", text "envType") ∷ [])
