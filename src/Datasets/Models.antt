-- ===== src/Datasets/Models.antt =====
-- The models of workbench-core/datasets/src/models.
use research_service_workben.Base.{String, Option, List}
use research_service_workben.Authorization.Models.{AuthenticatedUser}

-- The level and the type are texts: the code tests them where it uses them.
pub record DataSetPermission : Type 0 where
  pub identity : String
  pub identity_type : String
  pub access_level : String

pub record PermissionsResponse : Type 0 where
  pub data_set_id : String
  pub permissions : List DataSetPermission
  pub page_token : Option String

-- One permission or an array of them.
pub data OneOrMany : Type 0 where
  one : DataSetPermission → OneOrMany
  many : List DataSetPermission → OneOrMany

pub record AddRemoveAccessPermissionRequest : Type 0 where
  pub authenticated_user : AuthenticatedUser
  pub data_set_id : String
  pub permission : OneOrMany

pub record GetAccessPermissionRequest : Type 0 where
  pub data_set_id : String
  pub identity : String
  pub identity_type : String

pub record DataSet : Type 0 where
  pub id : String
  pub name : String
  pub created_at : String
  pub description : Option String
  pub owner : Option String
  pub owner_type : Option String
  pub type_name : Option String
  pub storage_name : String
  pub storage_type : String
  pub path : String
  pub external_endpoints : Option (List String)
  pub aws_account_id : Option String
  pub region : Option String
  pub permissions : Option (List DataSetPermission)

-- A data set that has no id and no time yet.
pub record CreateDataSet : Type 0 where
  pub name : String
  pub description : Option String
  pub owner : Option String
  pub owner_type : Option String
  pub type_name : Option String
  pub storage_name : String
  pub storage_type : String
  pub path : String
  pub external_endpoints : Option (List String)
  pub aws_account_id : Option String
  pub region : Option String
  pub permissions : Option (List DataSetPermission)

pub record ExternalEndpoint : Type 0 where
  pub id : String
  pub name : String
  pub created_at : String
  pub data_set_id : String
  pub data_set_name : String
  pub path : String
  pub allowed_roles : Option (List String)
  pub end_point_url : String
  pub end_point_alias : String
  pub access_level : String

-- An endpoint that has no id and no time yet.
pub record CreateExternalEndpoint : Type 0 where
  pub name : String
  pub data_set_id : String
  pub data_set_name : String
  pub path : String
  pub allowed_roles : Option (List String)
  pub end_point_url : String
  pub end_point_alias : String
  pub access_level : String

pub record DataSetMountObject : Type 0 where
  pub name : String
  pub bucket : String
  pub prefix : String
  pub endpoint_id : String

pub record StorageLocation : Type 0 where
  pub name : String
  pub type_name : String
  pub aws_account_id : Option String
  pub region : Option String
