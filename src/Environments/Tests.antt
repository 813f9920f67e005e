-- ===== src/Environments/Tests.antt =====
-- Runs of the environments on small inputs.
use research_service_workben.Base.{
  String, true, false, none, some, List, [], ◌∷◌, ◌≡◌, refl, ◌⊎◌, ok, err, Error, is_ok, pure, keep,
  ◌==◌,
}
use research_service_workben.Authorization.Models.{text, AuthenticatedUser}
use research_service_workben.Environments.Models.{Item, Environment, parse_environment}
use research_service_workben.Environments.Items.{
  build_dynamo_db_pk_sk, CreateEnvironmentRequest, items_to_get, is_resource, items_of,
}
use research_service_workben.Environments.Reading.{map_ddb_item_to_environment}
use research_service_workben.Environments.Service.{
  EnvironmentTable, get_environment, update_environment, create_environment,
}
use research_service_workben.Environments.Service.Guards.{
  IsReadOnly, IsComplete, update_environment-checked, create_environment-checked,
}
use research_service_workben.Environments.StatusHandler.{
  EventBridgeEventToDdb, StatusHost, skips, update_request, apply_event, execute,
}
use research_service_workben.Environments.Reading.{add_items}
use research_service_workben.Environments.Items.{build_dynamo_db_key}
use research_service_workben.Base.{split}
use research_service_workben.Environments.Models.{parse_project_dependency}
use research_service_workben.Environments.StatusHandler.Reports.{IsReported, execute-IsReported}
use research_service_workben.Environments.StatusHandler.Events.{IsApplied, execute-IsApplied}
use research_service_workben.Environments.Types.{
  TypeTable, EnvironmentType, UpdateEnvironmentTypeRequest, update_environment_type,
  validate_status_change, get_environment_type, parse_environment_type,
}
use research_service_workben.Environments.Types.Approval
use research_service_workben.Environments.Types.Approval.{
  MayChange, IsUpdate, update_environment_type-MayChange,
}

-- The item of an environment of the status, and how often the table was written.
abbrev env_item : String → Item
env_item status =
    ("pk", text "ENV#env-1")
    ∷ ("sk", text "ENV#env-1")
    ∷ ("id", text "env-1")
    ∷ ("cidr", text "10.0.0.0/16")
    ∷ ("description", text "")
    ∷ ("name", text "lab")
    ∷ ("dependency", text "proj-1")
    ∷ ("status", text status)
    ∷ ("provisionedProductId", text "pp-1")
    ∷ ("envTypeConfigId", text "etc-1")
    ∷ ("updatedAt", text "2023-01-02")
    ∷ ("createdAt", text "2023-01-01")
    ∷ ("owner", text "alice")
    ∷ ("instanceId", text "i-1")
    ∷ []

abbrev project_of_env : Item
project_of_env =
    ("pk", text "ENV#env-1")
    ∷ ("sk", text "PROJ#proj-1")
    ∷ ("id", text "proj-1")
    ∷ ("name", text "genomes")
    ∷ ("subnetId", text "s")
    ∷ ("awsAccountId", text "123")
    ∷ ("environmentInstanceFiles", text "f")
    ∷ ("vpcId", text "v")
    ∷ ("envMgmtRoleArn", text "arn:role")
    ∷ ("encryptionKeyArn", text "k")
    ∷ ("externalId", text "x")
    ∷ ("createdAt", text "2023-01-01")
    ∷ ("updatedAt", text "2023-01-01")
    ∷ ("hostingAccountHandlerRoleArn", text "h")
    ∷ []

abbrev resource : (kind id : String) → Item
resource kind id = ("resourceType", text kind) ∷ ("id", text id) ∷ []

-- The world is the list of what was written.
abbrev table : String → EnvironmentTable (List Item)
table status = record {
  get_item = λ k. pure (some (env_item status));
  get_items = λ ks. pure (
      resource "envTypeConfig" "etc-1"
      ∷ resource "project" "proj-1"
      ∷ resource "dataset" "d1"
      ∷ []);
  query = λ pk. pure (env_item status ∷ project_of_env ∷ []);
  update_item = λ k values w. (ok (some (env_item status)), values ∷ w);
  delete_item = λ k. pure tt;
  put_items = λ items w. (ok tt, items);
  environments_by_dependency = λ id. pure [];
}

reads_only : (status : String) → IsReadOnly (table status)
reads_only status = record {
  get_item = λ k w. refl;
  get_items = λ ks w. refl;
  query = λ pk w. refl;
}

terminated_stays :
    update_environment (table "TERMINATED") "env-1" (("status", text "STARTING") ∷ []) []
    ≡ (err Error.bad_request, [])
unfolding update_environment get_environment map_ddb_item_to_environment parse_environment
terminated_stays = refl

update_environment-checked_example :
    ((is_ok (update_environment (table "COMPLETED") "env-1" (("status", text "STOPPING") ∷ []) []).0
        ≡ false)
      × ((update_environment (table "COMPLETED") "env-1" (("status", text "STOPPING") ∷ []) []).1
          ≡ []))
    ⊎ ((env : Environment) × ((get_environment (table "COMPLETED") "env-1" false []).0 ≡ ok env)
        × ((env.status == "TERMINATED") ≡ false)
        × ((update_environment (table "COMPLETED") "env-1" (("status", text "STOPPING") ∷ []) []).1
            ≡ ((table "COMPLETED").update_item
                (build_dynamo_db_pk_sk "env-1" "ENV")
                (("status", text "STOPPING") ∷ [])
                []).1))
update_environment-checked_example =
    update_environment-checked (table "COMPLETED") (reads_only "COMPLETED") "env-1"
      (("status", text "STOPPING") ∷ []) []

abbrev alice : AuthenticatedUser
alice = record { id = "alice"; roles = [] }

abbrev creating : CreateEnvironmentRequest
creating = record {
  instance_id = none;
  cidr = "10.0.0.0/16";
  description = "";
  error = none;
  name = "lab";
  outputs = [];
  project_id = "proj-1";
  dataset_ids = "d1" ∷ [];
  env_type_id = "et-1";
  env_type_config_id = "etc-1";
  status = none;
}

create_environment-checked_example :
    ((is_ok (create_environment (table "PENDING") "env-1" "2023-01-01" creating alice []).0 ≡ false)
      × ((create_environment (table "PENDING") "env-1" "2023-01-01" creating alice []).1 ≡ []))
    ⊎ ((items : List Item) × (etc : Item) × (project : Item) × (((table "PENDING").get_items
            (items_to_get creating)
            []).0
          ≡ ok items)
        × IsComplete creating items etc project
        × ((create_environment (table "PENDING") "env-1" "2023-01-01" creating alice []).1
            ≡ ((table "PENDING").put_items
                (items_of "env-1" "2023-01-01" creating alice etc project
                  (keep (is_resource "dataset") items))
                []).1))
create_environment-checked_example =
    create_environment-checked (table "PENDING") (reads_only "PENDING") "env-1" "2023-01-01"
      creating alice []

abbrev host : StatusHost (List Item)
host = record {
  table = table "STARTING";
  get_aws_sdk_for_env_mgmt_role = λ r x o t. pure (record {
    disassociate_stack_to_app_registry = λ a s. pure tt;
    associate_stack_to_app_registry = λ a s. pure tt;
    describe_record = λ id. pure [];
  });
  add_role_to_access_point = λ env arn. pure tt;
  stack_name = "swb";
  date_parse = λ s. some 0;
  to_upper_case = λ s. s;
}

abbrev completed : EventBridgeEventToDdb
completed = record {
  env_id = some "env-1";
  instance_id = none;
  status = "COMPLETED";
  error_msg = none;
  operation = none;
  record_output_keys = none;
  metadata = some (record {
    time = "2023-01-03";
    account = "123";
    provisioned_product_id = none;
    env_type = none;
    record_id = none;
  });
}

execute-IsApplied_example :
    ((execute host completed []).1 ≡ []) ⊎ IsApplied host (reads_only "STARTING") completed []
execute-IsApplied_example = execute-IsApplied host (reads_only "STARTING") completed []

completed_returns : (execute host completed []).0 ≡ ok tt
unfolding execute get_environment update_environment skips update_request apply_event add_items
    build_dynamo_db_key split map_ddb_item_to_environment parse_environment parse_project_dependency
completed_returns = refl

execute-IsReported_example :
    ((execute host completed []).1 ≡ [])
    ⊎ ((a : IsApplied host (reads_only "STARTING") completed []) × IsReported host completed
          a.metadata a.env a.env_id []
          (execute host completed []).1)
execute-IsReported_example =
    execute-IsReported host (reads_only "STARTING") completed [] completed_returns

abbrev lab_type : Item
lab_type =
    ("id", text "et-1")
    ∷ ("productId", text "prod-1")
    ∷ ("provisioningArtifactId", text "pa-1")
    ∷ ("description", text "")
    ∷ ("name", text "lab")
    ∷ ("type", text "sagemaker")
    ∷ ("params", text "")
    ∷ ("status", text "APPROVED")
    ∷ ("createdAt", text "2023-01-01")
    ∷ ("updatedAt", text "2023-01-01")
    ∷ []

abbrev type_table : TypeTable (Unit {0})
type_table = record {
  get_item = λ k. pure (some lab_type);
  update_item = λ k values. pure (some lab_type);
  get_paginated_items = λ q. pure (record { items = []; pagination_token = none });
  configs_by_dependency = λ id. pure [];
  from_token = λ s. ok s;
  to_lower_case = λ s. s;
  is_product_id = λ s. true;
  is_provisioning_artifact_id = λ s. true;
  is_cfn_template_parameters = λ v. true;
}

abbrev lab : EnvironmentType
lab = record {
  id = "et-1";
  product_id = "prod-1";
  provisioning_artifact_id = "pa-1";
  description = "";
  name = "lab";
  type_name = "sagemaker";
  params = text "";
  status = "APPROVED";
  created_at = "2023-01-01";
  updated_at = "2023-01-01";
}

abbrev revoking : UpdateEnvironmentTypeRequest
revoking = record {
  env_type_id = "et-1";
  name = none;
  description = none;
  status = some "NOT_APPROVED";
}

revoked : (update_environment_type type_table "2023-02-01" revoking tt).0 ≡ ok lab
unfolding update_environment_type validate_status_change get_environment_type parse_environment_type
revoked = refl

type_table-IsReadOnly : Approval.IsReadOnly type_table
type_table-IsReadOnly = record { get_item = λ k w. refl; configs_by_dependency = λ id w. refl }

update_environment_type-MayChange_example :
    (old : EnvironmentType) × ((get_environment_type type_table "et-1" tt).0 ≡ ok old)
    × MayChange type_table (some "NOT_APPROVED") old tt
    × ((values : Item) × IsUpdate "2023-02-01" revoking values
        × ((update_environment_type type_table "2023-02-01" revoking tt).1
            ≡ (type_table.update_item (build_dynamo_db_pk_sk "et-1" "ET") values tt).1)
        × ((item : Item) × ((type_table.update_item (build_dynamo_db_pk_sk "et-1" "ET") values tt).0
              ≡ ok (some item))
            × (parse_environment_type type_table item ≡ ok lab)))
update_environment_type-MayChange_example =
    update_environment_type-MayChange type_table type_table-IsReadOnly "2023-02-01" revoking tt
      revoked
