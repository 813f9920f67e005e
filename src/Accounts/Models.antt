-- ===== src/Accounts/Models.antt =====
-- workbench-core/accounts/src/models/projects/project.ts, and the requests to filter and to sort
-- (workbench-core/base/src/interfaces).
use research_service_workben.Base.{String, Option, [], ◌∷◌, Dict}

pub record Project : Type 0 where
  pub id : String
  pub name : String
  pub description : String
  pub cost_center_id : String
  pub status : String
  pub created_at : String
  pub updated_at : String
  pub aws_account_id : String
  pub env_mgmt_role_arn : String
  pub hosting_account_handler_role_arn : String
  pub vpc_id : String
  pub subnet_id : String
  pub environment_instance_files : String
  pub encryption_key_arn : String
  pub external_id : String
  pub account_id : String

-- The properties of a parsed project, by their names.
unfoldable pub properties : Project → Dict String
properties p =
    ("id", p.id)
    ∷ ("name", p.name)
    ∷ ("description", p.description)
    ∷ ("costCenterId", p.cost_center_id)
    ∷ ("status", p.status)
    ∷ ("createdAt", p.created_at)
    ∷ ("updatedAt", p.updated_at)
    ∷ ("awsAccountId", p.aws_account_id)
    ∷ ("envMgmtRoleArn", p.env_mgmt_role_arn)
    ∷ ("hostingAccountHandlerRoleArn", p.hosting_account_handler_role_arn)
    ∷ ("vpcId", p.vpc_id)
    ∷ ("subnetId", p.subnet_id)
    ∷ ("environmentInstanceFiles", p.environment_instance_files)
    ∷ ("encryptionKeyArn", p.encryption_key_arn)
    ∷ ("externalId", p.external_id)
    ∷ ("accountId", p.account_id)
    ∷ []

-- The value of an operator; `range` is the object that `between` takes.
pub data FilterValue : Type 0 where
  text : String → FilterValue
  range : (value1 value2 : String) → FilterValue

-- The operators of a property, and the properties; `none` is `undefined`.
abbrev pub QueryStringParamFilter : Type 0
QueryStringParamFilter = Dict (Option FilterValue)

abbrev pub FilterRequest : Type 0
FilterRequest = Dict (Option QueryStringParamFilter)

abbrev pub SortRequest : Type 0
SortRequest = Dict (Option String)
