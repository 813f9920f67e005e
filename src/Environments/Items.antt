-- ===== src/Environments/Items.antt =====
-- How workbench-core/environments/src/services/environmentService.ts writes an environment to the
-- table: the keys, the items, and what must be there for them.
use research_service_workben.Base.{
  String, Bool, true, false, not, Option, none, some, List, [], ◌∷◌, ◌++◌, map, if◌then◌else◌,
  Result, ok, err, Error, lookup, ◌==◌, ◌<>◌, truthy, find, keep, any, concat,
}
use research_service_workben.Authorization.Models.{Json, text, arr, obj, AuthenticatedUser}
use research_service_workben.Environments.Models.{Item, of_list, of_dict}

-- The primary key of an item.
pub record Key : Type 0 where
  pub pk : String
  pub sk : String

unfoldable pub build_dynamo_db_key : (id type_key : String) → String
build_dynamo_db_key id type_key = type_key <> "#" <> id

unfoldable pub build_dynamo_db_pk_sk : (id type_key : String) → Key
build_dynamo_db_pk_sk id type_key = record {
  pk = build_dynamo_db_key id type_key;
  sk = build_dynamo_db_key id type_key;
}

pub record CreateEnvironmentRequest : Type 0 where
  pub instance_id : Option String
  pub cidr : String
  pub description : String
  -- The error's type and value.
  pub error : Option (String × String)
  pub name : String
  -- The outputs, each with its id, value and description.
  pub outputs : List (String × String × String)
  pub project_id : String
  pub dataset_ids : List String
  pub env_type_id : String
  pub env_type_config_id : String
  pub status : Option String

-- The keys of the configuration, the project and the data sets.
unfoldable pub items_to_get : CreateEnvironmentRequest → List Key
items_to_get p =
    record { pk = "ETC#" <> p.env_type_config_id; sk = "ETC#" <> p.env_type_config_id }
    ∷ build_dynamo_db_pk_sk p.project_id "PROJ"
    ∷ map (λ id. build_dynamo_db_pk_sk id "DATASET") p.dataset_ids

abbrev is_text : Option Json → String → Bool
is_text (some (text s)) v = s == v
is_text _ v = false

abbrev pub is_resource : String → Item → Bool
is_resource kind item = is_text (lookup "resourceType" item) kind

abbrev pub has_id : String → Item → Bool
has_id id d = is_text (lookup "id" d) id

-- The data set ids that no item of a data set has.
unfoldable pub ids_not_found : List Item → List String → List String
ids_not_found datasets ids = keep (λ id. not (any (has_id id) datasets)) ids

abbrev optional_text : String → Option String → Item
optional_text k none = []
optional_text k (some s) = (k, text s) ∷ []

abbrev optional_error : Option (String × String) → Item
optional_error none = []
optional_error (some (t, v)) =
    ("error", obj (of_dict (("type", text t) ∷ ("value", text v) ∷ []))) ∷ []

abbrev output_value : String × String × String → Json
output_value (id, v, d) =
    obj (of_dict (("id", text id) ∷ ("value", text v) ∷ ("description", text d) ∷ []))

abbrev or_pending : Option String → String
or_pending none = "PENDING"
or_pending (some s) = s

-- The attributes of the new environment's own item.
unfoldable pub new_env : (id now : String) → CreateEnvironmentRequest → AuthenticatedUser → Item
new_env id now p u =
    (("id", text id) ∷ [])
    ++ optional_text "instanceId" p.instance_id
    ++ (("cidr", text p.cidr) ∷ ("description", text p.description) ∷ [])
    ++ optional_error p.error
    ++ (("provisionedProductId", text "")
        ∷ ("name", text p.name)
        ∷ ("outputs", arr (of_list (map output_value p.outputs)))
        ∷ ("projectId", text p.project_id)
        ∷ ("envTypeConfigId", text p.env_type_config_id)
        ∷ ("updatedAt", text now)
        ∷ ("updatedBy", text u.id)
        ∷ ("createdAt", text now)
        ∷ ("createdBy", text u.id)
        ∷ ("owner", text u.id)
        ∷ ("status", text (or_pending (truthy p.status)))
        ∷ ("type", text ("ET#" <> p.env_type_id <> "ETC#" <> p.env_type_config_id))
        ∷ ("dependency", text p.project_id)
        ∷ [])

abbrev copied : String → Option Json → Item
copied k none = []
copied k (some v) = (k, v) ∷ []

-- The attributes of an item, those that it lacks left out.
abbrev copies : List String → Item → Item
copies [] d = []
copies (k ∷ ks) d = copied k (lookup k d) ++ copies ks d

abbrev keys : (pk sk : String) → Item
keys pk sk = ("pk", text pk) ∷ ("sk", text sk) ∷ []

abbrev env_type_config_item : String → CreateEnvironmentRequest → Item → Item
env_type_config_item id p etc =
    keys ("ENV#" <> id) ("ETC#" <> p.env_type_config_id)
    ++ (("id", text p.env_type_config_id) ∷ [])
    ++ copies ("productId" ∷ "provisioningArtifactId" ∷ "type" ∷ "params" ∷ []) etc

abbrev project_item : String → CreateEnvironmentRequest → Item → Item
project_item id p project =
    keys ("ENV#" <> id) ("PROJ#" <> p.project_id)
    ++ (("id", text p.project_id) ∷ [])
    ++ copies
        ("name" ∷ "envMgmtRoleArn" ∷ "hostingAccountHandlerRoleArn" ∷ "encryptionKeyArn" ∷ "vpcId"
          ∷ "subnetId" ∷ "externalId" ∷ "environmentInstanceFiles" ∷ "awsAccountId" ∷ [])
        project

abbrev shown : Option Json → String
shown (some (text s)) = s
shown _ = "undefined"

-- The two items of a data set: under the environment, and under the data set.
abbrev dataset_items : (id now : String) → Item → Item → List Item
dataset_items id now project d =
    (keys ("ENV#" <> id) ("DATASET#" <> shown (lookup "id" d))
      ++ copies ("id" ∷ "name" ∷ "resources" ∷ []) d
      ++ (("createdAt", text now) ∷ ("updatedAt", text now) ∷ []))
    ∷ (keys (build_dynamo_db_key (shown (lookup "id" d)) "DATASET") (build_dynamo_db_key id "ENV")
        ++ (("id", text id) ∷ [])
        ++ copied "projectId" (lookup "id" project)
        ++ (("createdAt", text now) ∷ ("updatedAt", text now) ∷ []))
    ∷ []

abbrev environment_item : String → Item → Item
environment_item id env =
    env
    ++ keys (build_dynamo_db_key id "ENV") (build_dynamo_db_key id "ENV")
    ++ (("resourceType", text "environment") ∷ [])

-- All items that a new environment is written as.
unfoldable pub items_of :
    (id now : String)
    → CreateEnvironmentRequest
    → AuthenticatedUser
    → (etc project : Item) → List Item
    → List Item
items_of id now p u etc project datasets =
    (env_type_config_item id p etc ∷ project_item id p project ∷ [])
    ++ concat (map (dataset_items id now project) datasets)
    ++ (environment_item id (new_env id now p u) ∷ [])

abbrev pub no_ids : List String → Bool
no_ids [] = true
no_ids (x ∷ xs) = false

-- The items that the request refers to: the configuration, the project and the data sets.
abbrev pub complete :
    CreateEnvironmentRequest
    → List Item
    → Option Item
    → Option Item
    → Result (Item × Item × List Item)
complete p items none project = err Error.bad_request
complete p items (some etc) none = err Error.bad_request
complete p items (some etc) (some project) =
    let datasets = keep (is_resource "dataset") items in
    if no_ids (ids_not_found datasets p.dataset_ids)
    then ok (etc, project, datasets)
    else err Error.bad_request

unfoldable pub check_metadata :
    CreateEnvironmentRequest → List Item → Result (Item × Item × List Item)
check_metadata p items =
    complete p items (find (is_resource "envTypeConfig") items) (find (is_resource "project") items)
