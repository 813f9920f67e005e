-- ===== src/Datasets/Plugins.antt =====
-- The interfaces that workbench-core/datasets/src/dataSetService.ts works with: the metadata of data
-- sets (dataSetMetadataPlugin.ts), their storage (dataSetsStoragePlugin.ts), and the access to them
-- (dataSetsAuthorizationPlugin.ts), which the plugin of Datasets/Permissions fills.
use research_service_workben.Base.{ℕ, String, Option, List, Async, Page}
use research_service_workben.Audit.{Metadata}
use research_service_workben.Authorization.Models.{AuthenticatedUser}
use research_service_workben.Authorization.Service.{Plugins}
use research_service_workben.Datasets.Models.{
  DataSet, CreateDataSet, ExternalEndpoint, CreateExternalEndpoint, StorageLocation,
  PermissionsResponse, DataSetPermission, AddRemoveAccessPermissionRequest,
  GetAccessPermissionRequest,
}
use research_service_workben.Datasets.Permissions.{
  add_access_permission, get_access_permissions, remove_access_permissions,
  get_all_data_set_access_permissions, remove_all_access_permissions, is_authorized_on_data_set,
}

pub record DataSetMetadataPlugin (W : Type 0) : Type 0 where
  pub get_pagination_token : String → String
  pub list_data_sets : ℕ → Option String → Async W (Page DataSet)
  pub get_data_set_metadata : String → Async W DataSet
  pub add_data_set : CreateDataSet → Async W DataSet
  pub update_data_set : DataSet → Async W DataSet
  pub remove_data_set : String → Async W (Unit {0})
  pub get_data_set_end_point_details : String → String → Async W ExternalEndpoint
  pub add_external_endpoint : CreateExternalEndpoint → Async W ExternalEndpoint
  pub update_external_endpoint : ExternalEndpoint → Async W ExternalEndpoint
  pub list_storage_locations : ℕ → Option String → Async W (Page StorageLocation)

pub record EndpointConnectionStrings : Type 0 where
  pub end_point_url : String
  pub end_point_alias : String

pub record AddStorageExternalEndpointRequest : Type 0 where
  pub name : String
  pub path : String
  pub external_endpoint_name : String
  pub owner_account_id : Option String
  pub access_level : String
  pub external_role_name : Option String
  pub kms_key_arn : Option String
  pub vpc_id : Option String

pub record AddRoleRequest : Type 0 where
  pub name : String
  pub path : String
  pub external_endpoint_name : String
  pub external_role_name : String
  pub end_point_url : String
  pub kms_key_arn : Option String

pub record DataSetsStoragePlugin (W : Type 0) : Type 0 where
  pub storage_type : String
  pub create_storage : String → String → Async W String
  pub import_storage : String → String → Async W String
  pub add_external_endpoint : AddStorageExternalEndpointRequest → Async W EndpointConnectionStrings
  pub remove_external_endpoint : String → Option String → Async W (Unit {0})
  pub add_role_to_external_endpoint : AddRoleRequest → Async W (Unit {0})
  pub create_presigned_upload_url : DataSet → String → ℕ → Async W String

pub record DataSetsAuthorizationPlugin (W : Type 0) : Type 0 where
  pub add_access_permission : AddRemoveAccessPermissionRequest → Async W PermissionsResponse
  pub get_access_permissions : GetAccessPermissionRequest → Async W PermissionsResponse
  pub remove_access_permissions : AddRemoveAccessPermissionRequest → Async W PermissionsResponse
  pub get_all_data_set_access_permissions :
      String → Option String → Option ℕ → Async W PermissionsResponse
  pub remove_all_access_permissions : String → AuthenticatedUser → Async W PermissionsResponse
  pub is_authorized_on_data_set : String → String → AuthenticatedUser → Async W (Unit {0})

-- The plugin over the dynamic authorization service.
abbrev pub wbc_data_sets_authorization_plugin :
    {W : Type 0} → Plugins W → ℕ → DataSetsAuthorizationPlugin W
wbc_data_sets_authorization_plugin s fuel = record {
  add_access_permission = add_access_permission s;
  get_access_permissions = get_access_permissions s;
  remove_access_permissions = remove_access_permissions s;
  get_all_data_set_access_permissions = get_all_data_set_access_permissions s;
  remove_all_access_permissions = remove_all_access_permissions s fuel;
  is_authorized_on_data_set = is_authorized_on_data_set s fuel;
}

pub record CreateProvisionDatasetRequest (W : Type 0) : Type 0 where
  pub name : String
  pub description : Option String
  pub owner : Option String
  pub owner_type : Option String
  pub type_name : Option String
  pub storage_name : String
  pub path : String
  pub aws_account_id : Option String
  pub region : Option String
  pub storage_provider : DataSetsStoragePlugin W
  pub permissions : Option (List DataSetPermission)
  pub authenticated_user : AuthenticatedUser

pub record AddDataSetExternalEndpointRequest (W : Type 0) : Type 0 where
  pub data_set_id : String
  pub external_endpoint_name : String
  pub storage_provider : DataSetsStoragePlugin W
  pub identity : String
  pub identity_type : String
  pub authenticated_user : AuthenticatedUser
  pub external_role_name : Option String
  pub kms_key_arn : Option String
  pub vpc_id : Option String

-- A data set service: its plugins and audit writer, the two variables of the process's environment
-- that it reads, and `Date.parse`, in milliseconds.
pub record DataSetService (W : Type 0) : Type 0 where
  pub db : DataSetMetadataPlugin W
  pub authz : DataSetsAuthorizationPlugin W
  pub write : Metadata → Async W (Unit {0})
  pub s3_datasets_bucket_name : Option String
  pub main_acct_id : Option String
  pub date_parse : String → ℕ
