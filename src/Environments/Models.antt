-- ===== src/Environments/Models.antt =====
-- workbench-core/environments/src/models/environments/environment.ts and environmentItem.ts, with
-- what their parsers read off the attributes of an item; and constants/environmentStatus.ts.
use research_service_workben.Base.{
  String, Bool, Option, none, some, List, [], ◌∷◌, Result, ok, err, Error, ◌>>?◌, map_result, Dict,
  lookup, includes,
}
use research_service_workben.Authorization.Models.{
  Json, text, arr, obj, Items, nil, cons, Fields, end, field,
}

-- An item of the table.
abbrev pub Item : Type 0
Item = Dict Json

pub record ProjectDependency : Type 0 where
  pub id : String
  pub name : String
  pub subnet_id : String
  pub aws_account_id : String
  pub environment_instance_files : String
  pub vpc_id : String
  pub env_mgmt_role_arn : String
  pub encryption_key_arn : String
  pub external_id : String
  pub created_at : String
  pub updated_at : String
  pub hosting_account_handler_role_arn : String

pub record DatasetDependency : Type 0 where
  pub id : String
  pub created_at : String
  pub updated_at : String

pub record EndpointDependency : Type 0 where
  pub id : String
  pub created_at : String
  pub updated_at : String
  pub data_set_id : String

pub record InstanceDependency : Type 0 where
  pub id : String
  pub created_at : String
  pub updated_at : String
  pub instance_arn : String

pub record EtcDependency : Type 0 where
  pub id : String
  pub type_name : String
  pub product_id : String
  pub created_at : String
  pub updated_at : String
  pub provisioning_artifact_id : String
  pub params : List (String × String)

pub record Environment : Type 0 where
  pub id : String
  pub instance_id : Option String
  pub cidr : String
  pub description : String
  pub name : String
  pub project_id : String
  pub status : String
  pub provisioned_product_id : String
  pub env_type_config_id : String
  pub updated_at : String
  pub created_at : String
  pub owner : String
  pub etc : Option EtcDependency
  pub proj : Option ProjectDependency
  pub datasets : Option (List DatasetDependency)
  pub endpoints : Option (List EndpointDependency)
  pub inid : Option InstanceDependency

abbrev pub zod_error : Error
zod_error = Error.other "ZodError"

abbrev pub as_text : Json → Result String
as_text (text s) = ok s
as_text _ = err zod_error

abbrev required_text : Option Json → Result String
required_text none = err zod_error
required_text (some v) = as_text v

-- `z.string()`
abbrev pub need : String → Item → Result String
need k d = required_text (lookup k d)

abbrev pub optional : {A : Type 0} → (Json → Result A) → Option Json → Result (Option A)
optional f none = ok none
optional f (some v) = f v >>? λ a. ok (some a)

abbrev pub to_list : Items → List Json
to_list nil = []
to_list (cons v vs) = v ∷ to_list vs

abbrev pub of_list : List Json → Items
of_list [] = nil
of_list (v ∷ vs) = cons v (of_list vs)

abbrev pub to_dict : Fields → Item
to_dict end = []
to_dict (field k v d) = (k, v) ∷ to_dict d

abbrev pub of_dict : Item → Fields
of_dict [] = end
of_dict ((k, v) ∷ d) = field k v (of_dict d)

abbrev object : {A : Type 0} → (Item → Result A) → Json → Result A
object f (obj d) = f (to_dict d)
object f _ = err zod_error

abbrev pub array : {A : Type 0} → (Json → Result A) → Json → Result (List A)
array f (arr vs) = map_result f (to_list vs)
array f _ = err zod_error

unfoldable pub parse_project_dependency : Item → Result ProjectDependency
parse_project_dependency d = need "id" d >>? λ id. need "name" d >>? λ name.
    need "subnetId" d >>? λ subnet_id. need "awsAccountId" d >>? λ aws_account_id.
    need "environmentInstanceFiles" d >>? λ environment_instance_files. need "vpcId" d >>? λ vpc_id.
    need "envMgmtRoleArn" d >>? λ env_mgmt_role_arn.
    need "encryptionKeyArn" d >>? λ encryption_key_arn. need "externalId" d >>? λ external_id.
    need "createdAt" d >>? λ created_at. need "updatedAt" d >>? λ updated_at.
    need "hostingAccountHandlerRoleArn" d >>? λ hosting_account_handler_role_arn. ok (record {
      id = id;
      name = name;
      subnet_id = subnet_id;
      aws_account_id = aws_account_id;
      environment_instance_files = environment_instance_files;
      vpc_id = vpc_id;
      env_mgmt_role_arn = env_mgmt_role_arn;
      encryption_key_arn = encryption_key_arn;
      external_id = external_id;
      created_at = created_at;
      updated_at = updated_at;
      hosting_account_handler_role_arn = hosting_account_handler_role_arn;
    })

unfoldable pub parse_dataset_dependency : Item → Result DatasetDependency
parse_dataset_dependency d = need "id" d >>? λ id. need "createdAt" d >>? λ created_at.
    need "updatedAt" d >>? λ updated_at.
    ok (record { id = id; created_at = created_at; updated_at = updated_at })

unfoldable pub parse_endpoint_dependency : Item → Result EndpointDependency
parse_endpoint_dependency d = need "id" d >>? λ id. need "createdAt" d >>? λ created_at.
    need "updatedAt" d >>? λ updated_at. need "dataSetId" d >>? λ data_set_id. ok (record {
      id = id;
      created_at = created_at;
      updated_at = updated_at;
      data_set_id = data_set_id;
    })

unfoldable pub parse_instance_dependency : Item → Result InstanceDependency
parse_instance_dependency d = need "id" d >>? λ id. need "createdAt" d >>? λ created_at.
    need "updatedAt" d >>? λ updated_at. need "instanceArn" d >>? λ instance_arn. ok (record {
      id = id;
      created_at = created_at;
      updated_at = updated_at;
      instance_arn = instance_arn;
    })

abbrev pub parse_param : Json → Result (String × String)
parse_param v = object (λ d. need "key" d >>? λ key. need "value" d >>? λ value. ok (key, value)) v

abbrev pub required : {A : Type 0} → (Json → Result A) → Option Json → Result A
required f none = err zod_error
required f (some v) = f v

unfoldable pub parse_etc_dependency : Item → Result EtcDependency
parse_etc_dependency d = need "id" d >>? λ id. need "type" d >>? λ type_name.
    need "productId" d >>? λ product_id. need "createdAt" d >>? λ created_at.
    need "updatedAt" d >>? λ updated_at.
    need "provisioningArtifactId" d >>? λ provisioning_artifact_id.
    required (array parse_param) (lookup "params" d) >>? λ params. ok (record {
      id = id;
      type_name = type_name;
      product_id = product_id;
      created_at = created_at;
      updated_at = updated_at;
      provisioning_artifact_id = provisioning_artifact_id;
      params = params;
    })

unfoldable pub parse_environment : Item → Result Environment
parse_environment d = need "id" d >>? λ id.
    optional as_text (lookup "instanceId" d) >>? λ instance_id. need "cidr" d >>? λ cidr.
    need "description" d >>? λ description. need "name" d >>? λ name.
    need "projectId" d >>? λ project_id. need "status" d >>? λ status.
    need "provisionedProductId" d >>? λ provisioned_product_id.
    need "envTypeConfigId" d >>? λ env_type_config_id. need "updatedAt" d >>? λ updated_at.
    need "createdAt" d >>? λ created_at. need "owner" d >>? λ owner.
    optional (object parse_etc_dependency) (lookup "ETC" d) >>? λ etc.
    optional (object parse_project_dependency) (lookup "PROJ" d) >>? λ proj.
    optional (array (object parse_dataset_dependency)) (lookup "DATASETS" d) >>? λ datasets.
    optional (array (object parse_endpoint_dependency)) (lookup "ENDPOINTS" d) >>? λ endpoints.
    optional (object parse_instance_dependency) (lookup "INID" d) >>? λ inid. ok (record {
      id = id;
      instance_id = instance_id;
      cidr = cidr;
      description = description;
      name = name;
      project_id = project_id;
      status = status;
      provisioned_product_id = provisioned_product_id;
      env_type_config_id = env_type_config_id;
      updated_at = updated_at;
      created_at = created_at;
      owner = owner;
      etc = etc;
      proj = proj;
      datasets = datasets;
      endpoints = endpoints;
      inid = inid;
    })

abbrev pub environment_status : List String
environment_status =
    "PENDING" ∷ "COMPLETED" ∷ "STARTING" ∷ "STOPPING" ∷ "STOPPED" ∷ "TERMINATING" ∷ "TERMINATED"
    ∷ "FAILED" ∷ "TERMINATING_FAILED" ∷ "STARTING_FAILED" ∷ "STOPPING_FAILED" ∷ []

abbrev pub is_environment_status : String → Bool
is_environment_status s = includes s environment_status
