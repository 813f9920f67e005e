-- ===== src/Environments/Reading.antt =====
-- How workbench-core/environments/src/services/environmentService.ts reads an environment from the
-- items of the table.
use research_service_workben.Base.{
  String, Option, none, some, List, [], ◌∷◌, ◌++◌, if◌then◌else◌, Result, ok, err, Error, ◌>>?◌,
  lookup, ◌==◌, split, part,
}
use research_service_workben.Authorization.Models.{Json, text, arr, obj, nil}
use research_service_workben.Environments.Items.{build_dynamo_db_key}
use research_service_workben.Authorization.Casl.{assign, omit}
use research_service_workben.Environments.Models.{
  Item, Environment, DatasetDependency, EndpointDependency, to_list, of_list, of_dict,
  parse_environment, parse_dataset_dependency, parse_endpoint_dependency,
}

abbrev pub type_error : Error
type_error = Error.other "TypeError"

abbrev pub with_project : Item → Option Json → Item
with_project item none = omit "projectId" item
with_project item (some p) = assign "projectId" p item

unfoldable pub map_ddb_item_to_environment : Item → Result Environment
map_ddb_item_to_environment item = parse_environment (with_project item (lookup "dependency" item))

abbrev pub text_of : Option Json → Result String
text_of (some (text s)) = ok s
text_of _ = err type_error

abbrev dataset_value : DatasetDependency → Json
dataset_value d = obj (
    of_dict (
      ("id", text d.id) ∷ ("createdAt", text d.created_at) ∷ ("updatedAt", text d.updated_at) ∷ []))

abbrev endpoint_value : EndpointDependency → Json
endpoint_value e = obj (
    of_dict (
      ("id", text e.id)
      ∷ ("createdAt", text e.created_at)
      ∷ ("updatedAt", text e.updated_at)
      ∷ ("dataSetId", text e.data_set_id)
      ∷ []))

abbrev appended : String → Item → Json → Option Json → Result Item
appended k env v (some (arr vs)) = ok (assign k (arr (of_list (to_list vs ++ v ∷ []))) env)
appended k env v _ = err type_error

-- `envWithMetadata[k].push(v)`
abbrev push : String → Item → Json → Result Item
push k env v = appended k env v (lookup k env)

abbrev prefix_of : Option String → String
prefix_of none = ""
prefix_of (some s) = s

-- `{ ...a, ...b }`
abbrev pub spread : Item → Item → Item
spread a [] = a
spread a ((k, v) ∷ b) = spread (assign k v a) b

-- What an item under the key of the environment adds to it, by the part of its `sk` before `#`.
abbrev add_metadata_item : Item → Item → String → Result Item
add_metadata_item env item kind =
    if kind == "DATASET"
    then (parse_dataset_dependency item >>? λ d. push "DATASETS" env (dataset_value d))
    else if kind == "ENDPOINT"
    then (parse_endpoint_dependency item >>? λ e. push "ENDPOINTS" env (endpoint_value e))
    else ok (assign kind (obj (of_dict item)) env)

abbrev add_item : String → Item → Item → Result Item
add_item env_id env item = text_of (lookup "sk" item) >>? λ sk.
    if sk == build_dynamo_db_key env_id "ENV"
    then ok (spread env item)
    else add_metadata_item env item (prefix_of (part 0 (split b'#' sk)))

unfoldable pub add_items : String → Item → List Item → Result Item
add_items env_id env [] = ok env
add_items env_id env (item ∷ items) =
    add_item env_id env item >>? λ env'. add_items env_id env' items

abbrev default_env : Item
default_env =
    ("id", text "")
    ∷ ("instanceId", text "")
    ∷ ("cidr", text "")
    ∷ ("description", text "")
    ∷ ("name", text "")
    ∷ ("projectId", text "")
    ∷ ("status", text "PENDING")
    ∷ ("envTypeConfigId", text "")
    ∷ ("updatedAt", text "")
    ∷ ("createdAt", text "")
    ∷ ("provisionedProductId", text "")
    ∷ ("owner", text "")
    ∷ ("DATASETS", arr nil)
    ∷ ("ENDPOINTS", arr nil)
    ∷ []

abbrev pub joined_items : String → List Item → Result Environment
joined_items env_id [] = err Error.not_found
joined_items env_id (i ∷ is) = add_items env_id default_env (i ∷ is) >>? map_ddb_item_to_environment

abbrev pub found_environment : Option Item → Result Environment
found_environment none = err Error.not_found
found_environment (some item) = map_ddb_item_to_environment item

abbrev pub updated_environment : Option Item → Result Environment
updated_environment none = err type_error
updated_environment (some item) = map_ddb_item_to_environment item
