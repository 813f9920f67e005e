-- ===== src/Accounts/HostingModels.antt =====
-- workbench-core/accounts/src/models: hosting accounts and cost centers, and the parsers of what the table
-- holds of them. The formats that the parsers ask of the texts are parameters. Items are texts here, so
-- that the optional attribute `error` of an account is left out.
use research_service_workben.Base.{
  String, Bool, ◌&&◌, Option, none, List, [], ◌∷◌, if◌then◌else◌, Result, ok, err, Error, Async,
  ◌>>?◌, lookup, ◌==◌, Page, includes, ◌||◌,
}
use research_service_workben.Accounts.Projects.{Item, need}
use research_service_workben.Queries.{QueryParams}

-- A cost center, as its parser reads it.
pub record FullCostCenter : Type 0 where
  pub id : String
  pub name : String
  pub description : String
  pub subnet_id : String
  pub vpc_id : String
  pub env_mgmt_role_arn : String
  pub external_id : String
  pub encryption_key_arn : String
  pub environment_instance_files : String
  pub hosting_account_handler_role_arn : String
  pub aws_account_id : String
  pub account_id : String
  pub created_at : String
  pub updated_at : String
  pub dependency : String
  pub status : String

pub record Account : Type 0 where
  pub id : String
  pub name : String
  pub aws_account_id : String
  pub env_mgmt_role_arn : String
  pub hosting_account_handler_role_arn : String
  pub vpc_id : Option String
  pub subnet_id : Option String
  pub environment_instance_files : Option String
  pub encryption_key_arn : Option String
  pub external_id : String
  pub stack_name : String
  pub status : String
  pub updated_at : String
  pub created_at : String
  pub cost_center : Option FullCostCenter

pub record AccountStore (W : Type 0) : Type 0 where
  pub get_item : (pk sk : String) → Async W (Option Item)
  pub query : (pk : String) → Async W (List Item)
  -- Sets attributes; returns the item's attributes.
  pub update_item : (pk sk : String) → Item → Async W (Option Item)
  pub get_paginated_items : QueryParams → Async W (Page Item)
  pub has_account_format : Account → Bool
  pub has_cost_center_format : FullCostCenter → Bool
  pub stack_name : String

abbrev pub zod_error : Error
zod_error = Error.other "ZodError"

abbrev hosting_account_status : List String
hosting_account_status =
    "CURRENT" ∷ "NEEDS_UPDATE" ∷ "NEEDS_ONBOARD" ∷ "PENDING" ∷ "ERRORED" ∷ "UNKNOWN" ∷ []

abbrev is_cost_center_status : String → Bool
is_cost_center_status s = s == "AVAILABLE" || s == "DELETED"

-- What of an account is written, each only where it is known.
pub record AccountMetadata : Type 0 where
  pub id : String
  pub name : Option String
  pub aws_account_id : Option String
  pub env_mgmt_role_arn : Option String
  pub hosting_account_handler_role_arn : Option String
  pub vpc_id : Option String
  pub subnet_id : Option String
  pub encryption_key_arn : Option String
  pub environment_instance_files : Option String
  pub status : Option String
  pub external_id : Option String

pub record CreateAccountRequest : Type 0 where
  pub name : String
  pub aws_account_id : String
  pub env_mgmt_role_arn : String
  pub hosting_account_handler_role_arn : String
  pub external_id : String
  pub environment_instance_files : String

module _ {W : Type 0} (s : AccountStore W) where
  abbrev checked_center : FullCostCenter → Result FullCostCenter
  checked_center c =
      if is_cost_center_status c.status && s.has_cost_center_format c then ok c else err zod_error

  unfoldable pub parse_cost_center : Item → Result FullCostCenter
  parse_cost_center d = need "id" d >>? λ id. need "name" d >>? λ name.
      need "description" d >>? λ description. need "subnetId" d >>? λ subnet_id.
      need "vpcId" d >>? λ vpc_id. need "envMgmtRoleArn" d >>? λ env_mgmt_role_arn.
      need "externalId" d >>? λ external_id. need "encryptionKeyArn" d >>? λ encryption_key_arn.
      need "environmentInstanceFiles" d >>? λ environment_instance_files.
      need "hostingAccountHandlerRoleArn" d >>? λ hosting_account_handler_role_arn.
      need "awsAccountId" d >>? λ aws_account_id. need "accountId" d >>? λ account_id.
      need "createdAt" d >>? λ created_at. need "updatedAt" d >>? λ updated_at.
      need "dependency" d >>? λ dependency. need "status" d >>? λ status. checked_center (record {
        id = id;
        name = name;
        description = description;
        subnet_id = subnet_id;
        vpc_id = vpc_id;
        env_mgmt_role_arn = env_mgmt_role_arn;
        external_id = external_id;
        encryption_key_arn = encryption_key_arn;
        environment_instance_files = environment_instance_files;
        hosting_account_handler_role_arn = hosting_account_handler_role_arn;
        aws_account_id = aws_account_id;
        account_id = account_id;
        created_at = created_at;
        updated_at = updated_at;
        dependency = dependency;
        status = status;
      })

  abbrev pub checked_account : Account → Result Account
  checked_account a =
      if includes a.status hosting_account_status && s.has_account_format a
      then ok a
      else err zod_error

  unfoldable pub parse_account : Item → Result Account
  parse_account d = need "id" d >>? λ id. need "name" d >>? λ name.
      need "awsAccountId" d >>? λ aws_account_id. need "envMgmtRoleArn" d >>? λ env_mgmt_role_arn.
      need "hostingAccountHandlerRoleArn" d >>? λ hosting_account_handler_role_arn.
      need "externalId" d >>? λ external_id. need "stackName" d >>? λ stack_name.
      need "status" d >>? λ status. need "updatedAt" d >>? λ updated_at.
      need "createdAt" d >>? λ created_at. checked_account (record {
        id = id;
        name = name;
        aws_account_id = aws_account_id;
        env_mgmt_role_arn = env_mgmt_role_arn;
        hosting_account_handler_role_arn = hosting_account_handler_role_arn;
        vpc_id = lookup "vpcId" d;
        subnet_id = lookup "subnetId" d;
        environment_instance_files = lookup "environmentInstanceFiles" d;
        encryption_key_arn = lookup "encryptionKeyArn" d;
        external_id = external_id;
        stack_name = stack_name;
        status = status;
        updated_at = updated_at;
        created_at = created_at;
        cost_center = none;
      })
