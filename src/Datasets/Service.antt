-- ===== src/Datasets/Service.antt =====
-- workbench-core/datasets/src/dataSetService.ts: data sets and the access to them. The external
-- endpoints are in Datasets/Endpoints.
pub mod Reading
pub mod Changes
pub mod Listing
use research_service_workben.Base.{
  ℕ, suc, zero, ◌-◌, String, Bool, true, false, not, ◌&&◌, ◌||◌, Option, none, some, List, [], ◌∷◌,
  ◌++◌, if◌then◌else◌, Result, ok, err, hang, Error, Async, pure, throw, throw_if, lift, try_catch,
  both, promise_all, ◌>>=◌, ◌>>◌, ltb, leb, length, take, concat, part, ◌==◌, is_some, truthy, Page,
  ◌≡◌,
}
use research_service_workben.Audit.{audited, audited-ok}
use research_service_workben.Authorization.Models.{AuthenticatedUser}
use research_service_workben.Datasets.Models.{
  DataSet, CreateDataSet, StorageLocation, PermissionsResponse, DataSetPermission, many,
  AddRemoveAccessPermissionRequest, GetAccessPermissionRequest,
}
use research_service_workben.Datasets.Plugins.{DataSetService, CreateProvisionDatasetRequest}

abbrev pub same_text : Option String → Option String → Bool
same_text none none = true
same_text (some a) (some b) = a == b
same_text _ _ = false

abbrev pub is_forbidden : Error → Bool
is_forbidden Error.forbidden = true
is_forbidden _ = false

abbrev pub has_items {ℓ} : {A : Type ℓ} → Option (List A) → Bool
has_items none = false
has_items (some []) = false
has_items (some (x ∷ xs)) = true

-- An owner comes with its type.
abbrev pub lacks_owner_type : {W : Type 0} → CreateProvisionDatasetRequest W → Bool
lacks_owner_type r = is_some (truthy r.owner) && not (is_some (truthy r.owner_type))

abbrev pub provisioned : {W : Type 0} → CreateProvisionDatasetRequest W → CreateDataSet
provisioned r = record {
  name = r.name;
  description = r.description;
  owner = r.owner;
  owner_type = r.owner_type;
  type_name = r.type_name;
  storage_name = r.storage_name;
  storage_type = r.storage_provider.storage_type;
  path = r.path;
  external_endpoints = none;
  aws_account_id = r.aws_account_id;
  region = r.region;
  permissions = r.permissions;
}

-- Only an owner that has a type is let through.
abbrev text_of : Option String → String
text_of none = "undefined"
text_of (some s) = s

abbrev read_only_for : (identity identity_type : String) → List DataSetPermission
read_only_for identity identity_type =
    record { identity = identity; identity_type = identity_type; access_level = "read-only" } ∷ []

abbrev default_permissions :
    Option String → Option String → AuthenticatedUser → List DataSetPermission
default_permissions none owner_type u = read_only_for u.id "USER"
default_permissions (some owner) owner_type u = read_only_for owner (text_of owner_type)

-- The permissions of a new data set: those of the request, or else read-only for the owner, or else
-- for the user.
unfoldable pub initial_permissions :
    {W : Type 0} → CreateProvisionDatasetRequest W → List DataSetPermission
initial_permissions r = elim r.permissions [
  | none ↦ default_permissions (truthy r.owner) r.owner_type r.authenticated_user
  | some ps ↦ elim ps [
    | [] ↦ default_permissions (truthy r.owner) r.owner_type r.authenticated_user
    | q ∷ qs ↦ q ∷ qs
  ]
]

abbrev pub adding :
    {W : Type 0} → String → CreateProvisionDatasetRequest W → AddRemoveAccessPermissionRequest
adding id r = record {
  authenticated_user = r.authenticated_user;
  data_set_id = id;
  permission = many (initial_permissions r);
}

-- What is still to be read: the token, as long as the page is not full.
abbrev pub next_token : Bool → Option String → Option String
next_token true t = truthy t
next_token false t = none

module _ (date_parse : String → ℕ) where
  unfoldable pub insert_newest : DataSet → List DataSet → List DataSet
  insert_newest d [] = d ∷ []
  insert_newest d (x ∷ xs) =
      if leb (date_parse x.created_at) (date_parse d.created_at)
      then d ∷ x ∷ xs
      else x ∷ insert_newest d xs

  -- `sort((a, b) => Date.parse(b.createdAt) - Date.parse(a.createdAt))`, which is stable
  unfoldable pub sort_newest : List DataSet → List DataSet
  sort_newest [] = []
  sort_newest (d ∷ ds) = insert_newest d (sort_newest ds)

module _ {W : Type 0} (s : DataSetService W) where
  -- `try { … }` with an audit entry for the outcome
  unfoldable pub with_audit : {A : Type 0} → AuthenticatedUser → String → Async W A → Async W A
  unfolding audited
  with_audit u name body =
      audited s.write (record { actor = u; action = name; status_code = none })
        (record { actor = u; action = name; status_code = none }) body

  -- An audited call returns only what its body returned.
  pub with_audit-ok :
      {A : Type 0} (u : AuthenticatedUser) (name : String) (body : Async W A) (w : W) {a : A}
      → (with_audit u name body w).0 ≡ ok a
      → (body w).0 ≡ ok a
  unfolding with_audit
  with_audit-ok u name body w h = audited-ok s.write _ _ body w h

  unfoldable pub update_new_data_set_permissions :
      String → CreateProvisionDatasetRequest W → Async W (List DataSetPermission)
  update_new_data_set_permissions id r = do
    response ← s.authz.add_access_permission (adding id r)
    pure response.permissions

  abbrev pub add_new : CreateProvisionDatasetRequest W → Async W DataSet
  add_new r = do
    d ← s.db.add_data_set (provisioned r)
    ps ← update_new_data_set_permissions d.id r
    pure (record d { permissions = some ps })

  abbrev pub provision : CreateProvisionDatasetRequest W → Async W DataSet
  provision r = do
    throw_if (lacks_owner_type r) Error.invalid_parameter
    throw_if (not (same_text (some r.storage_name) s.s3_datasets_bucket_name))
        Error.storage_not_found
    throw_if (not (same_text r.aws_account_id s.main_acct_id)) Error.account_not_found
    r.storage_provider.create_storage r.storage_name r.path
    add_new r

  unfoldable pub provision_data_set : CreateProvisionDatasetRequest W → Async W DataSet
  provision_data_set r = with_audit r.authenticated_user "provisionDataSet" (provision r)

  abbrev pub import_existing : CreateProvisionDatasetRequest W → Async W DataSet
  import_existing r = do
    throw_if (lacks_owner_type r) Error.invalid_parameter
    r.storage_provider.import_storage r.storage_name r.path
    add_new r

  unfoldable pub import_data_set : CreateProvisionDatasetRequest W → Async W DataSet
  import_data_set r = with_audit r.authenticated_user "importDataSet" (import_existing r)

  -- The loop over the pages of permissions: every call passes on the token of the first page.
  unfoldable pub read_more :
      ℕ
      → String
      → Option String
      → Option String
      → List DataSetPermission
      → Async W (List DataSetPermission)
  read_more zero id first next acc = elim (truthy next) [ none ↦ pure acc | some t ↦ lift hang ]
  read_more (suc f) id first next acc = elim (truthy next) [
    | none ↦ pure acc
    | some t ↦ s.authz.get_all_data_set_access_permissions id first none >>= λ page.
        read_more f id first page.page_token (acc ++ page.permissions)
  ]

  abbrev pub with_permissions : ℕ → String → DataSet × PermissionsResponse → Async W DataSet
  with_permissions fuel id (d, first) = do
    ps ← read_more fuel id first.page_token first.page_token first.permissions
    pure (record d { permissions = some ps })

  unfoldable pub get_data_set : ℕ → String → AuthenticatedUser → Async W DataSet
  get_data_set fuel id u = with_audit u "getDataSet" (
      both (s.db.get_data_set_metadata id)
        (s.authz.get_all_data_set_access_permissions id none none)
      >>= with_permissions fuel id)

  abbrev pub remove_unused : String → AuthenticatedUser → DataSet → Async W DataSet
  remove_unused id u d = do
    throw_if (has_items d.external_endpoints) Error.has_endpoint
    removed ← both (s.authz.remove_all_access_permissions id u) (s.db.remove_data_set id)
    pure (record d { permissions = some removed.0.permissions })

  unfoldable pub remove_data_set :
      ℕ
      → String
      → (check_dependency : String → Async W (Unit {0})) → AuthenticatedUser
      → Async W DataSet
  remove_data_set fuel id check_dependency u =
      with_audit u "removeDataSet"
        (check_dependency id >> (get_data_set fuel id u >>= remove_unused id u))

  -- The data set, if the user may read it.
  unfoldable pub visible : AuthenticatedUser → DataSet → Async W (List DataSet)
  visible u d =
      try_catch (s.authz.is_authorized_on_data_set d.id "read-only" u >> pure (d ∷ []))
        (λ e. if is_forbidden e then pure [] else throw e)

  abbrev pub visible_among : AuthenticatedUser → List DataSet → Async W (List DataSet)
  visible_among u ds = do found ← promise_all (visible u) ds; pure (concat found)

  -- `do { … } while (authedDataSets.length < pageSize && lastPaginationToken)`
  unfoldable pub read_visible :
      ℕ
      → AuthenticatedUser
      → ℕ
      → Option String
      → List DataSet
      → Async W (List DataSet × Option String)
  read_visible zero u page_size token acc = lift hang
  read_visible (suc f) u page_size token acc = s.db.list_data_sets page_size token >>= λ page.
      visible_among u page.items >>= λ found.
      elim (next_token (ltb (length (acc ++ found)) page_size) page.pagination_token) [
        | none ↦ pure (acc ++ found, page.pagination_token)
        | some t ↦ read_visible f u page_size (some t) (acc ++ found)
      ]

  abbrev pub ended : List DataSet → Option DataSet → Result (Page DataSet)
  ended ds none = err (Error.other "TypeError")
  ended ds (some d) =
      ok (record { items = ds; pagination_token = some (s.db.get_pagination_token d.id) })

  -- The page: the newest data sets, and a token that names the last of them where some are left over.
  unfoldable pub cut_newest : ℕ → List DataSet → Option String → Result (Page DataSet)
  cut_newest page_size ds token =
      let newest = sort_newest s.date_parse ds in
      if ltb page_size (length ds)
      then ended (take page_size newest) (part (page_size - 1) (take page_size newest))
      else ok (record { items = newest; pagination_token = token })

  unfoldable pub list_data_sets : ℕ → AuthenticatedUser → ℕ → Option String → Async W (Page DataSet)
  list_data_sets fuel u page_size token = with_audit u "listDataSets" (
      read_visible fuel u page_size token [] >>= λ found.
      lift (cut_newest page_size found.0 found.1))

  unfoldable pub list_storage_locations :
      AuthenticatedUser → ℕ → Option String → Async W (Page StorageLocation)
  list_storage_locations u page_size token =
      with_audit u "listStorageLocations" (s.db.list_storage_locations page_size token)

  unfoldable pub add_data_set_access_permissions :
      ℕ → AddRemoveAccessPermissionRequest → Async W PermissionsResponse
  add_data_set_access_permissions fuel params =
      with_audit params.authenticated_user "addDataSetAccessPermissions" (
        get_data_set fuel params.data_set_id params.authenticated_user
        >> s.authz.add_access_permission params)

  unfoldable pub get_data_set_access_permissions :
      ℕ → GetAccessPermissionRequest → AuthenticatedUser → Async W PermissionsResponse
  get_data_set_access_permissions fuel params u =
      with_audit u "getDataSetAccessPermissions"
        (get_data_set fuel params.data_set_id u >> s.authz.get_access_permissions params)

  unfoldable pub get_all_data_set_access_permissions :
      String → AuthenticatedUser → Option String → Option ℕ → Async W PermissionsResponse
  get_all_data_set_access_permissions id u page_token page_size =
      with_audit u "getAllDataSetAccessPermissions" (
        both (s.db.get_data_set_metadata id)
          (s.authz.get_all_data_set_access_permissions id page_token page_size)
        >>= λ found. pure found.1)

  unfoldable pub remove_data_set_access_permissions :
      ℕ → AddRemoveAccessPermissionRequest → Async W PermissionsResponse
  remove_data_set_access_permissions fuel params =
      with_audit params.authenticated_user "removeDataSetAccessPermissions" (
        get_data_set fuel params.data_set_id params.authenticated_user
        >> s.authz.remove_access_permissions params)
