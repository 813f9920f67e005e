-- ===== src/Datasets/Samples.antt =====
-- A small instance of the plugins of the data sets: one data set, one endpoint, one user.
use research_service_workben.Base.{
  String, Option, none, some, List, [], ◌∷◌, pure, if◌then◌else◌, ◌==◌,
}
use research_service_workben.Authorization.Models.{AuthenticatedUser}
use research_service_workben.Datasets.Models.{
  DataSet, DataSetPermission, PermissionsResponse, ExternalEndpoint,
}
use research_service_workben.Datasets.Plugins.{
  DataSetMetadataPlugin, DataSetsStoragePlugin, DataSetsAuthorizationPlugin, DataSetService,
  CreateProvisionDatasetRequest, AddDataSetExternalEndpointRequest,
}

abbrev pub World : Type 0
World = Unit {0}

abbrev pub researchers_read : DataSetPermission
researchers_read = record {
  identity = "researchers";
  identity_type = "GROUP";
  access_level = "read-only";
}

abbrev pub bob_writes : DataSetPermission
bob_writes = record { identity = "bob"; identity_type = "USER"; access_level = "read-write" }

abbrev pub d1 : Option (List String) → DataSet
d1 endpoints = record {
  id = "d1";
  name = "genomes";
  created_at = "2023-01-01";
  description = none;
  owner = none;
  owner_type = none;
  type_name = none;
  storage_name = "bucket";
  storage_type = "S3";
  path = "genomes";
  external_endpoints = endpoints;
  aws_account_id = some "123";
  region = none;
  permissions = none;
}

abbrev pub e1 : ExternalEndpoint
e1 = record {
  id = "e1";
  name = "lab";
  created_at = "2023-01-02";
  data_set_id = "d1";
  data_set_name = "genomes";
  path = "genomes";
  allowed_roles = none;
  end_point_url = "s3://lab";
  end_point_alias = "lab-alias";
  access_level = "read-only";
}

abbrev pub db : {W : Type 0} → Option (List String) → DataSetMetadataPlugin W
db endpoints = record {
  get_pagination_token = λ id. id;
  list_data_sets = λ n t. pure (record { items = d1 endpoints ∷ []; pagination_token = none });
  get_data_set_metadata = λ id. pure (d1 endpoints);
  add_data_set = λ d. pure (d1 none);
  update_data_set = λ d. pure d;
  remove_data_set = λ id. pure tt;
  get_data_set_end_point_details = λ id e. pure e1;
  add_external_endpoint = λ e. pure e1;
  update_external_endpoint = λ e. pure e;
  list_storage_locations = λ n t. pure (record { items = []; pagination_token = none });
}

abbrev pub storage : DataSetsStoragePlugin World
storage = record {
  storage_type = "S3";
  create_storage = λ n p. pure n;
  import_storage = λ n p. pure n;
  add_external_endpoint =
      λ r. pure (record { end_point_url = "s3://lab"; end_point_alias = "lab-alias" });
  remove_external_endpoint = λ n a. pure tt;
  add_role_to_external_endpoint = λ r. pure tt;
  create_presigned_upload_url = λ d f n. pure f;
}

-- Three pages of permissions, by their tokens.
abbrev pub page : Option String → PermissionsResponse
page none = record {
  data_set_id = "d1";
  permissions = researchers_read ∷ [];
  page_token = some "2";
}
page (some t) = record {
  data_set_id = "d1";
  permissions = bob_writes ∷ [];
  page_token = if t == "2" then some "3" else none;
}

abbrev single_page : Option String → PermissionsResponse
single_page t = record {
  data_set_id = "d1";
  permissions = researchers_read ∷ [];
  page_token = none;
}

abbrev pub authz : (Option String → PermissionsResponse) → DataSetsAuthorizationPlugin World
authz pages = record {
  add_access_permission = λ p. pure (single_page none);
  get_access_permissions = λ q. pure (single_page none);
  remove_access_permissions = λ p. pure (single_page none);
  get_all_data_set_access_permissions = λ id t n. pure (pages t);
  remove_all_access_permissions = λ id u. pure (single_page none);
  is_authorized_on_data_set = λ id l u. pure tt;
}

abbrev pub service_of :
    Option (List String) → (Option String → PermissionsResponse) → DataSetService World
service_of endpoints pages = record {
  db = db endpoints;
  authz = authz pages;
  write = λ m. pure tt;
  s3_datasets_bucket_name = some "bucket";
  main_acct_id = some "123";
  date_parse = λ s. 0;
}

abbrev pub sample : DataSetService World
sample = service_of none single_page

-- The data set has the endpoint `e1`.
abbrev pub mounted : DataSetService World
mounted = service_of (some ("e1" ∷ [])) single_page

abbrev pub carol : AuthenticatedUser
carol = record { id = "carol"; roles = "researchers" ∷ [] }

abbrev pub provisioning : CreateProvisionDatasetRequest World
provisioning = record {
  name = "genomes";
  description = none;
  owner = none;
  owner_type = none;
  type_name = none;
  storage_name = "bucket";
  path = "genomes";
  aws_account_id = some "123";
  region = none;
  storage_provider = storage;
  permissions = none;
  authenticated_user = carol;
}

abbrev pub attaching : AddDataSetExternalEndpointRequest World
attaching = record {
  data_set_id = "d1";
  external_endpoint_name = "lab";
  storage_provider = storage;
  identity = "researchers";
  identity_type = "GROUP";
  authenticated_user = carol;
  external_role_name = none;
  kms_key_arn = none;
  vpc_id = none;
}
