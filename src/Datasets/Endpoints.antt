-- ===== src/Datasets/Endpoints.antt =====
-- The external endpoints of workbench-core/datasets/src/dataSetService.ts: through an endpoint a
-- data set is mounted.
pub mod Access
pub mod Attaching
use research_service_workben.Base.{
  ℕ, String, Bool, true, false, not, ◌&&◌, Option, none, some, List, [], ◌∷◌, ◌++◌, map,
  if◌then◌else◌, Result, ok, err, Error, Async, pure, throw, throw_if, lift, try_catch, promise_all,
  ◌>>=◌, ◌>>◌, concat, ◌==◌, truthy, any, keep, includes,
}
use research_service_workben.Audit.{Metadata}
use research_service_workben.Authorization.Models.{AuthenticatedUser}
use research_service_workben.Datasets.Models.{
  DataSet, DataSetPermission, GetAccessPermissionRequest, ExternalEndpoint, CreateExternalEndpoint,
  DataSetMountObject,
}
use research_service_workben.Datasets.Plugins.{
  DataSetService, DataSetsStoragePlugin, AddDataSetExternalEndpointRequest,
  EndpointConnectionStrings,
}
use research_service_workben.Datasets.Service.{with_audit, get_data_set}

unfoldable pub generate_mount_object : ExternalEndpoint → DataSetMountObject
generate_mount_object e = record {
  name = e.data_set_name;
  bucket = e.end_point_alias;
  prefix = e.path;
  endpoint_id = e.id;
}

abbrev pub has_level : String → List DataSetPermission → Bool
has_level l ps = any (λ p. p.access_level == l) ps

unfoldable pub get_minimum_access_level : List DataSetPermission → Result String
get_minimum_access_level ps =
    if has_level "read-only" ps
    then ok "read-only"
    else if has_level "read-write" ps
    then ok "read-write"
    else err Error.invalid_permission

abbrev pub no_items {ℓ} : {A : Type ℓ} → List A → Bool
no_items [] = true
no_items (x ∷ xs) = false

abbrev pub or_empty {ℓ} : {A : Type ℓ} → Option (List A) → List A
or_empty none = []
or_empty (some xs) = xs

-- `xs.find((x) => x === id)`, as a condition: an empty text does not count as found
abbrev pub finds : String → List String → Bool
finds id xs = includes id xs && not (id == "")

abbrev pub role_list : Option String → Option (List String)
role_list none = none
role_list (some r) = some (r ∷ [])

abbrev pub asking : String → String → String → GetAccessPermissionRequest
asking id identity identity_type = record {
  data_set_id = id;
  identity = identity;
  identity_type = identity_type;
}

abbrev pub new_endpoint :
    String → Option String → DataSet → String → EndpointConnectionStrings → CreateExternalEndpoint
new_endpoint name role d level c = record {
  name = name;
  data_set_id = d.id;
  data_set_name = d.name;
  path = d.path;
  allowed_roles = role_list (truthy role);
  end_point_url = c.end_point_url;
  end_point_alias = c.end_point_alias;
  access_level = level;
}

module _ {W : Type 0} (s : DataSetService W) where
  unfoldable pub get_external_end_point :
      String → String → AuthenticatedUser → Async W ExternalEndpoint
  get_external_end_point id endpoint_id u =
      with_audit s u "getExternalEndPoint" (s.db.get_data_set_end_point_details id endpoint_id)

  -- What the user and the user's groups were given, one after another.
  unfoldable pub get_authenticated_user_dataset_permissions :
      AuthenticatedUser → String → Async W (List DataSetPermission)
  get_authenticated_user_dataset_permissions u id = do
    responses ←
        promise_all s.authz.get_access_permissions
          (asking id u.id "USER" ∷ map (λ role. asking id role "GROUP") u.roles)
    pure (concat (map (λ r. r.permissions) responses))

  abbrev pub mount : List DataSetPermission → ExternalEndpoint → Async W DataSetMountObject
  mount ps e = do
    throw_if (not (has_level e.access_level ps)) Error.not_authorized
    pure (generate_mount_object e)

  abbrev pub mount_with :
      String → String → AuthenticatedUser → List DataSetPermission → Async W DataSetMountObject
  mount_with id endpoint_id u ps = do
    throw_if (no_items ps) Error.not_authorized
    get_external_end_point id endpoint_id u >>= mount ps

  unfoldable pub get_data_set_mount_object :
      ℕ → String → String → AuthenticatedUser → Async W DataSetMountObject
  get_data_set_mount_object fuel id endpoint_id u = with_audit s u "getDataSetMountObject" (
      get_data_set s fuel id u
      >> (get_authenticated_user_dataset_permissions u id >>= mount_with id endpoint_id u))

  abbrev pub remove_found :
      DataSetsStoragePlugin W → DataSet → ExternalEndpoint → Async W (Unit {0})
  remove_found storage d e = do
    throw_if (not (finds e.id (or_empty d.external_endpoints))) Error.endpoint_not_found
    storage.remove_external_endpoint e.name d.aws_account_id
    s.db.update_data_set (record d {
      external_endpoints = some (keep (λ x. not (x == e.id)) (or_empty d.external_endpoints));
    })
    pure tt

  unfoldable pub remove_data_set_external_endpoint :
      ℕ → String → String → DataSetsStoragePlugin W → AuthenticatedUser → Async W (Unit {0})
  remove_data_set_external_endpoint fuel id endpoint_id storage u =
      with_audit s u "removeDataSetExternalEndpoint" (
        get_data_set s fuel id u >>= λ d.
        get_external_end_point id endpoint_id u >>= remove_found storage d)

  abbrev pub store_endpoint :
      AddDataSetExternalEndpointRequest W
      → DataSet
      → String
      → EndpointConnectionStrings
      → Async W DataSetMountObject
  store_endpoint r d level c = do
    e ←
        s.db.add_external_endpoint
          (new_endpoint r.external_endpoint_name r.external_role_name d level c)
    s.db.update_data_set
        (record d { external_endpoints = some (or_empty d.external_endpoints ++ e.id ∷ []) })
    pure (generate_mount_object e)

  abbrev pub connect :
      AddDataSetExternalEndpointRequest W → DataSet → String → Async W EndpointConnectionStrings
  connect r d level = r.storage_provider.add_external_endpoint (record {
    name = d.storage_name;
    path = d.path;
    external_endpoint_name = r.external_endpoint_name;
    owner_account_id = d.aws_account_id;
    access_level = level;
    external_role_name = r.external_role_name;
    kms_key_arn = r.kms_key_arn;
    vpc_id = r.vpc_id;
  })

  abbrev pub add_for :
      AddDataSetExternalEndpointRequest W
      → DataSet
      → List DataSetPermission
      → Async W DataSetMountObject
  add_for r d ps = do
    throw_if (no_items ps) Error.not_authorized
    level ← lift (get_minimum_access_level ps)
    connect r d level >>= store_endpoint r d level

  unfoldable pub add_data_set_external_endpoint :
      ℕ → AddDataSetExternalEndpointRequest W → Async W DataSetMountObject
  add_data_set_external_endpoint fuel r = do
    d ← get_data_set s fuel r.data_set_id r.authenticated_user
    response ← s.authz.get_access_permissions (asking r.data_set_id r.identity r.identity_type)
    add_for r d response.permissions

  -- The request's `identity` is its `groupId`.
  unfoldable pub add_data_set_external_endpoint_for_group :
      ℕ → AddDataSetExternalEndpointRequest W → Async W DataSetMountObject
  add_data_set_external_endpoint_for_group fuel r =
      with_audit s r.authenticated_user "addDataSetExternalEndpointForGroup"
        (add_data_set_external_endpoint fuel (record r { identity_type = "GROUP" }))

  -- The request's `identity` is its `userId`.
  unfoldable pub add_data_set_external_endpoint_for_user :
      ℕ → AddDataSetExternalEndpointRequest W → Async W DataSetMountObject
  add_data_set_external_endpoint_for_user fuel r =
      with_audit s r.authenticated_user "addDataSetExternalEndpointForUser"
        (add_data_set_external_endpoint fuel (record r { identity_type = "USER" }))

  abbrev pub add_role :
      Metadata
      → String
      → Option String
      → DataSetsStoragePlugin W
      → ExternalEndpoint
      → Async W (Unit {0})
  add_role m arn kms_key_arn storage e = do
    storage.add_role_to_external_endpoint (record {
      name = e.data_set_name;
      path = e.path;
      external_endpoint_name = e.name;
      external_role_name = arn;
      end_point_url = e.end_point_url;
      kms_key_arn = kms_key_arn;
    })
    s.db.update_external_endpoint
        (record e { allowed_roles = some (or_empty e.allowed_roles ++ arn ∷ []) })
    s.write m

  -- A role that is there ends the call: nothing is written, and no audit entry either.
  abbrev pub add_role_unless :
      Bool
      → Metadata
      → String
      → Option String
      → DataSetsStoragePlugin W
      → ExternalEndpoint
      → Async W (Unit {0})
  add_role_unless true m arn kms_key_arn storage e = pure tt
  add_role_unless false m arn kms_key_arn storage e = add_role m arn kms_key_arn storage e

  unfoldable pub add_role_to_external_endpoint :
      String
      → String
      → String
      → DataSetsStoragePlugin W
      → AuthenticatedUser
      → Option String
      → Async W (Unit {0})
  add_role_to_external_endpoint id endpoint_id arn storage u kms_key_arn =
      let m : Metadata = record {
        actor = u;
        action = "addRoleToExternalEndpoint";
        status_code = none;
      } in
      try_catch
        (s.db.get_data_set_end_point_details id endpoint_id >>= λ e.
          add_role_unless (finds arn (or_empty e.allowed_roles)) m arn kms_key_arn storage e)
        (λ x. s.write m >> throw x)

  unfoldable pub get_presigned_single_part_upload_url :
      ℕ → String → String → ℕ → DataSetsStoragePlugin W → AuthenticatedUser → Async W String
  get_presigned_single_part_upload_url fuel id file_name time_to_live_seconds storage u =
      with_audit s u "getExternalEndPoint" (
        get_data_set s fuel id u >>= λ d.
        storage.create_presigned_upload_url d file_name time_to_live_seconds)
