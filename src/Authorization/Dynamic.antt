-- ===== src/Authorization/Dynamic.antt =====
-- workbench-core/authorization/src/dynamicAuthorization/dynamicAuthorizationService.ts, over its
-- plugins. Requests are typed, so the parsers that begin its methods accept them as they are. The
-- loops that read pages take fuel.
pub mod Access
pub mod Creation
pub mod Deletion
pub mod Instance
use research_service_workben.Base.{
  ℕ, String, Bool, true, false, not, Option, none, some, List, [], ◌∷◌, ◌++◌, map, if◌then◌else◌,
  Result, ok, err, Error, Async, pure, throw, throw_if, lift, try_catch, ◌>>=◌, ◌>>◌, ◌>>?◌,
  for_each, map_result, promise_all, both, Dict, lookup, ltb, length, chunk, collect, Page,
  includes, ◌==◌, any,
}
use research_service_workben.Audit.{Metadata, audited}
use research_service_workben.Authorization.Models.{
  Action, AuthenticatedUser, Identity, IdentityType, group, user, IdentityPermission,
  DynamicOperation,
}
use research_service_workben.Authorization.Casl.{Casl, is_authorized_on_dynamic_operations}
use research_service_workben.Authorization.Template.{replace_params}
use research_service_workben.Authorization.GroupPlugin.{
  GroupStatus, NewStatus, GroupManagementPlugin,
}
use research_service_workben.Authorization.Groups.{is_active, is_group_not_found}
use research_service_workben.Authorization.PermissionsPlugin.{
  SubjectQuery, IdentityQuery, RouteOperations, DynamicAuthorizationPermissionsPlugin,
}
use research_service_workben.Authorization.Service.{
  Plugins, wildcard_subject_id, with_status, group_identity, user_identity, add_group,
  group_ids_from, first_some, combined, inject_params, inject_operation, subject_id_of,
  subject_type_of, with_audit,
}

module _ {W : Type 0} (s : Plugins W) where
  unfoldable pub get_all_identity_permissions_by_subject :
      ℕ → String → String → Action → List Identity → Async W (List IdentityPermission)
  get_all_identity_permissions_by_subject fuel subject_id subject_type action identities =
      collect fuel
        (λ token. s.permissions.get_identity_permissions_by_subject (record {
          subject_id = subject_id;
          subject_type = subject_type;
          action = some action;
          identities = some identities;
          pagination_token = token;
          limit = none;
        }))
        none []

  unfoldable pub get_all_identity_permissions_by_identity :
      ℕ → String → IdentityType → Async W (List IdentityPermission)
  get_all_identity_permissions_by_identity fuel identity_id identity_type =
      collect fuel
        (λ token. s.permissions.get_identity_permissions_by_identity (record {
          identity_id = identity_id;
          identity_type = identity_type;
          pagination_token = token;
          limit = none;
        }))
        none []

  -- The permissions on the subject, and on the wildcard where the subject is another.
  unfoldable pub get_subject_permissions :
      ℕ → DynamicOperation → List Identity → Async W (List IdentityPermission)
  get_subject_permissions fuel op identities = do
    let subject_id = subject_id_of op
    let get = λ (id : String).
        get_all_identity_permissions_by_subject fuel id (subject_type_of op) op.action identities
    let wildcard = if subject_id == wildcard_subject_id then pure [] else get wildcard_subject_id
    found ← both (get subject_id) wildcard
    pure (found.0 ++ found.1)

  -- The body of `isAuthorizedOnSubject`: for given identities, and for those of the user.
  unfoldable pub check_identities : ℕ → DynamicOperation → List Identity → Async W (Unit {0})
  check_identities fuel op identities = do
    identity_permissions ← get_subject_permissions fuel op identities
    lift (is_authorized_on_dynamic_operations s.casl identity_permissions (op ∷ []))

  unfoldable pub check_subject : ℕ → AuthenticatedUser → DynamicOperation → Async W (Unit {0})
  check_subject fuel u op = do
    valid_group_ids ← s.groups.validate_user_groups u.id u.roles
    check_identities fuel op (map group_identity valid_group_ids ++ user_identity u.id ∷ [])

  unfoldable pub is_authorized_on_subject :
      ℕ → AuthenticatedUser → DynamicOperation → Async W (Unit {0})
  is_authorized_on_subject fuel u op =
      with_audit s u "isAuthorizedOnSubject" (check_subject fuel u op)

  -- The body of `isAuthorizedOnRoute`: its operations with their parameters, the test that the
  -- route is protected, and the whole, behind the test for an ignored route.
  unfoldable pub check_operations :
      ℕ → AuthenticatedUser → Dict String → RouteOperations → Async W (Unit {0})
  check_operations fuel u params found = do
    operations ← lift (
        map_result (inject_operation (combined s.escape_reg_exp found.path_params params))
          found.dynamic_operations)
    for_each (is_authorized_on_subject fuel u) operations

  unfoldable pub check_protected :
      ℕ → AuthenticatedUser → (route method : String) → Dict String → Bool → Async W (Unit {0})
  check_protected fuel u route method params route_protected = do
    throw_if (not route_protected) Error.route_not_secured
    found ← s.permissions.get_dynamic_operations_by_route route method
    check_operations fuel u params found

  unfoldable pub check_ignored :
      ℕ → AuthenticatedUser → (route method : String) → Dict String → Bool → Async W (Unit {0})
  check_ignored fuel u route method params true = pure tt
  check_ignored fuel u route method params false = do
    route_protected ← s.permissions.is_route_protected route method
    check_protected fuel u route method params route_protected

  unfoldable pub check_route :
      ℕ → AuthenticatedUser → (route method : String) → Dict String → Async W (Unit {0})
  check_route fuel u route method params = do
    ignored ← s.permissions.is_route_ignored route method
    check_ignored fuel u route method params ignored

  unfoldable pub is_authorized_on_route :
      ℕ → AuthenticatedUser → (route method : String) → Dict String → Async W (Unit {0})
  is_authorized_on_route fuel u route method params =
      with_audit s u "isAuthorizedOnRoute" (check_route fuel u route method params)

  unfoldable pub create_group : AuthenticatedUser → String → Async W String
  create_group u group_id = with_audit s u "createGroup" (s.groups.create_group group_id)

  unfoldable pub add_user_to_group :
      AuthenticatedUser → (user_id group_id : String) → Async W (String × String)
  add_user_to_group u user_id group_id =
      with_audit s u "addUserToGroup" (s.groups.add_user_to_group user_id group_id)

  unfoldable pub remove_user_from_group :
      AuthenticatedUser → (user_id group_id : String) → Async W (String × String)
  remove_user_from_group u user_id group_id =
      with_audit s u "removeUserFromGroup" (s.groups.remove_user_from_group user_id group_id)

  -- The private `_createIdentityPermissions`: the groups must be active when they are asked.
  unfoldable pub create_for_statuses :
      List IdentityPermission → List GroupStatus → Async W (List IdentityPermission)
  create_for_statuses ps statuses = do
    throw_if (any (λ status. not (is_active status)) statuses) Error.group_not_found
    s.permissions.create_identity_permissions ps

  unfoldable pub create_permissions : List IdentityPermission → Async W (List IdentityPermission)
  create_permissions ps = do
    throw_if (ltb 100 (length ps)) Error.throughput_exceeded
    statuses ← promise_all s.groups.get_group_status (group_ids_from [] ps)
    create_for_statuses ps statuses

  unfoldable pub create_identity_permissions :
      AuthenticatedUser → List IdentityPermission → Async W (List IdentityPermission)
  create_identity_permissions u ps =
      with_audit s u "createIdentityPermissions" (create_permissions ps)

  unfoldable pub delete_identity_permissions :
      AuthenticatedUser → List IdentityPermission → Async W (List IdentityPermission)
  delete_identity_permissions u ps =
      with_audit s u "deleteIdentityPermissions" (s.permissions.delete_identity_permissions ps)

  unfoldable pub delete_subject_identity_permissions :
      ℕ → AuthenticatedUser → (subject_type subject_id : String) → Async W (List IdentityPermission)
  delete_subject_identity_permissions fuel u subject_type subject_id =
      with_audit s u "deleteSubjectIdentityPermissions"
        (s.permissions.delete_subject_identity_permissions fuel subject_type subject_id)

  unfoldable pub delete_all_identity_permissions_by_identity :
      ℕ → AuthenticatedUser → String → IdentityType → Async W (Unit {0})
  delete_all_identity_permissions_by_identity fuel u identity_id identity_type =
      try_catch
        (do
          identity_permissions ←
              get_all_identity_permissions_by_identity fuel identity_id identity_type
          promise_all (delete_identity_permissions u) (chunk 100 identity_permissions)
          pure tt)
        (λ e. throw Error.retry)

  unfoldable pub has_group_status : String → Async W Bool
  has_group_status group_id =
      try_catch (do s.groups.get_group_status group_id; pure true)
        (λ e. if is_group_not_found e then pure false else throw e)

  -- The body of `deleteGroup`: lock the group; then remove its permissions, the group and, last,
  -- its status.
  unfoldable pub remove_locked : ℕ → AuthenticatedUser → String → Async W String
  remove_locked fuel u group_id = do
    delete_all_identity_permissions_by_identity fuel u group_id group
    response ← s.groups.delete_group group_id
    s.groups.set_group_status group_id NewStatus.deleted
    pure response

  unfoldable pub remove_group : ℕ → AuthenticatedUser → String → Async W String
  remove_group fuel u group_id = do
    known ← has_group_status group_id
    throw_if (not known) Error.group_not_found
    s.groups.set_group_status group_id NewStatus.delete_pending
    remove_locked fuel u group_id

  unfoldable pub delete_group : ℕ → AuthenticatedUser → String → Async W String
  delete_group fuel u group_id = with_audit s u "deleteGroup" (remove_group fuel u group_id)
