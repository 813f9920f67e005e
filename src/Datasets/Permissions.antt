-- ===== src/Datasets/Permissions.antt =====
-- workbench-core/datasets/src/wbcDataSetsAuthorizationPlugin.ts, over the dynamic authorization
-- service: how the permissions on a data set become identity permissions, and back.
pub mod Level
pub mod RoundTrip
pub mod Access
use research_service_workben.Base.{
  ℕ, String, Bool, true, false, not, ◌&&◌, ◌||◌, Option, none, some, List, [], ◌∷◌, ◌++◌,
  if◌then◌else◌, Result, ok, err, Error, Async, pure, lift, ◌>>=◌, ◌>>◌, ◌>>?◌, ◌==◌, ◌<>◌, any,
  keep, truthy, Page,
}
use research_service_workben.Authorization.Models.{
  Action, create, read, update, delete, Effect, allow, deny, IdentityType, group, user,
  AuthenticatedUser, IdentityPermission, DynamicOperation,
}
use research_service_workben.Authorization.Keys.{identity_type_text}
use research_service_workben.Authorization.PermissionsPlugin.{SubjectQuery}
use research_service_workben.Authorization.Service.{Plugins}
use research_service_workben.Authorization.Lookups.{get_identity_permissions_by_subject}
use research_service_workben.Authorization.Dynamic.{
  create_identity_permissions, delete_identity_permissions, delete_subject_identity_permissions,
  is_authorized_on_subject,
}
use research_service_workben.Datasets.Models.{
  DataSetPermission, PermissionsResponse, OneOrMany, one, many, AddRemoveAccessPermissionRequest,
  GetAccessPermissionRequest,
}

abbrev pub data_set_subject_type : String
data_set_subject_type = "Dataset"

abbrev pub as_array : OneOrMany → List DataSetPermission
as_array (one p) = p ∷ []
as_array (many ps) = ps

abbrev pub is_level : String → Bool
is_level l = l == "read-only" || l == "read-write"

abbrev pub is_identity_type : String → Bool
is_identity_type t = t == "GROUP" || t == "USER"

abbrev pub type_of : String → IdentityType
type_of t = if t == "GROUP" then group else user

-- An ALLOW for an action on the data set.
abbrev pub allowing : String → DataSetPermission → Action → String → IdentityPermission
allowing id p action level = record {
  identity_type = type_of p.identity_type;
  identity_id = p.identity;
  effect = allow;
  action = action;
  subject_type = data_set_subject_type;
  subject_id = id;
  fields = none;
  conditions = none;
  description = some ("'" <> level <> "' access on DataSet '" <> id <> "'");
}

abbrev pub expand : String → DataSetPermission → List IdentityPermission
expand id p =
    allowing id p read p.access_level
    ∷ (if p.access_level == "read-write" then allowing id p update "read-write" ∷ [] else [])

unfoldable pub expand_all : String → List DataSetPermission → List IdentityPermission
expand_all id [] = []
expand_all id (p ∷ ps) = expand id p ++ expand_all id ps

unfoldable pub data_set_permission_to_identity_permissions :
    String → List DataSetPermission → Result (List IdentityPermission)
data_set_permission_to_identity_permissions id ps =
    if any (λ p. not (is_level p.access_level)) ps
    then err Error.invalid_permission
    else if any (λ p. not (is_identity_type p.identity_type)) ps
    then err Error.invalid_permission
    else ok (expand_all id ps)

abbrev pub level_of_action : Action → String
level_of_action update = "read-write"
level_of_action _ = "read-only"

abbrev pub is_read_or_update : Action → Bool
is_read_or_update read = true
is_read_or_update update = true
is_read_or_update _ = false

abbrev pub is_allowing : Effect → Bool
is_allowing allow = true
is_allowing deny = false

abbrev pub is_update : Action → Bool
is_update update = true
is_update _ = false

abbrev pub new_permission : IdentityPermission → DataSetPermission
new_permission i = record {
  identity = i.identity_id;
  identity_type = identity_type_text i.identity_type;
  access_level = level_of_action i.action;
}

abbrev pub is_of : IdentityPermission → DataSetPermission → Bool
is_of i p = p.identity == i.identity_id && p.identity_type == identity_type_text i.identity_type

-- An identity that is there is raised to read-write by UPDATE.
abbrev pub raised : IdentityPermission → DataSetPermission → DataSetPermission
raised i p =
    if p.access_level == "read-only" && is_update i.action
    then record p { access_level = "read-write" }
    else p

unfoldable pub merge : IdentityPermission → List DataSetPermission → List DataSetPermission
merge i [] = new_permission i ∷ []
merge i (p ∷ ps) = if is_of i p then raised i p ∷ ps else p ∷ merge i ps

abbrev pub merged : IdentityPermission → PermissionsResponse → PermissionsResponse
merged i r = record r { permissions = merge i r.permissions }

abbrev pub new_response : IdentityPermission → PermissionsResponse
new_response i = record {
  data_set_id = i.subject_id;
  permissions = new_permission i ∷ [];
  page_token = none;
}

-- The first response of the data set takes the permission; a new data set comes last.
unfoldable pub add_to_response :
    IdentityPermission → List PermissionsResponse → List PermissionsResponse
add_to_response i [] = new_response i ∷ []
add_to_response i (r ∷ rs) =
    if r.data_set_id == i.subject_id then merged i r ∷ rs else r ∷ add_to_response i rs

unfoldable pub add_all :
    List IdentityPermission → List PermissionsResponse → List PermissionsResponse
add_all [] rs = rs
add_all (i ∷ is) rs = add_all is (add_to_response i rs)

unfoldable pub identity_permissions_to_permissions_response :
    List IdentityPermission → Result (List PermissionsResponse)
identity_permissions_to_permissions_response is =
    if any (λ i. not (is_read_or_update i.action)) is
    then err Error.invalid_permission
    else if any (λ i. not (is_allowing i.effect)) is
    then err Error.invalid_permission
    else ok (add_all is [])

abbrev pub single : List PermissionsResponse → Result PermissionsResponse
single (r ∷ []) = ok r
single _ = err Error.invalid_permission

-- With no response at all, there are no permissions on the data set.
abbrev pub single_or_empty : String → List PermissionsResponse → Result PermissionsResponse
single_or_empty id [] = ok (record { data_set_id = id; permissions = []; page_token = none })
single_or_empty id (r ∷ []) = ok r
single_or_empty id (r ∷ q ∷ rs) = err Error.invalid_permission

abbrev pub on_data_set : String → Action → DynamicOperation
on_data_set id action = record {
  action = action;
  subject = ("subjectId", id) ∷ ("subjectType", data_set_subject_type) ∷ [];
  field = none;
}

module _ {W : Type 0} (s : Plugins W) where
  unfoldable pub add_access_permission :
      AddRemoveAccessPermissionRequest → Async W PermissionsResponse
  add_access_permission params = do
    ps ← lift (
        data_set_permission_to_identity_permissions params.data_set_id (as_array params.permission))
    created ← create_identity_permissions s params.authenticated_user ps
    lift (identity_permissions_to_permissions_response created >>? single)

  unfoldable pub get_access_permissions : GetAccessPermissionRequest → Async W PermissionsResponse
  get_access_permissions params =
      if is_identity_type params.identity_type
      then (do
        page ← get_identity_permissions_by_subject s (record {
          subject_id = params.data_set_id;
          subject_type = data_set_subject_type;
          action = none;
          identities = some (
              record { identity_type = type_of params.identity_type; identity_id = params.identity }
              ∷ []);
          pagination_token = none;
          limit = none;
        })
        lift (
            identity_permissions_to_permissions_response
              (keep (λ i. is_read_or_update i.action) page.items)
            >>? single_or_empty params.data_set_id))
      else lift (err Error.invalid_permission)

  unfoldable pub remove_access_permissions :
      AddRemoveAccessPermissionRequest → Async W PermissionsResponse
  remove_access_permissions params = do
    ps ← lift (
        data_set_permission_to_identity_permissions params.data_set_id (as_array params.permission))
    removed ← delete_identity_permissions s params.authenticated_user ps
    lift (identity_permissions_to_permissions_response removed >>? single)

  unfoldable pub get_all_data_set_access_permissions :
      String → Option String → Option ℕ → Async W PermissionsResponse
  get_all_data_set_access_permissions id page_token page_size = do
    page ← get_identity_permissions_by_subject s (record {
      subject_id = id;
      subject_type = data_set_subject_type;
      action = none;
      identities = none;
      pagination_token = page_token;
      limit = page_size;
    })
    response ← lift (
        identity_permissions_to_permissions_response
          (keep (λ i. is_read_or_update i.action) page.items)
        >>? single_or_empty id)
    pure (record response { page_token = truthy page.pagination_token })

  unfoldable pub remove_all_access_permissions :
      ℕ → String → AuthenticatedUser → Async W PermissionsResponse
  remove_all_access_permissions fuel id u = do
    removed ← delete_subject_identity_permissions s fuel u data_set_subject_type id
    lift (
        identity_permissions_to_permissions_response
          (keep (λ i. is_read_or_update i.action) removed)
        >>? single_or_empty id)

  abbrev pub check_update : ℕ → String → AuthenticatedUser → Bool → Async W (Unit {0})
  check_update fuel id u true = is_authorized_on_subject s fuel u (on_data_set id update)
  check_update fuel id u false = pure tt

  unfoldable pub is_authorized_on_data_set :
      ℕ → String → (access_level : String) → AuthenticatedUser → Async W (Unit {0})
  is_authorized_on_data_set fuel id access_level u =
      is_authorized_on_subject s fuel u (on_data_set id read)
      >> check_update fuel id u (access_level == "read-write")
