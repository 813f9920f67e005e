-- ===== src/Authorization/Groups.antt =====
-- workbench-core/authorization/src/dynamicAuthorization/wbcGroupManagementPlugin.ts. The table of
-- DynamoDB and the user management service are parameters.
pub mod Lifecycle
pub mod Trace
use research_service_workben.Base.{
  String, Bool, true, false, ◌||◌, ◌&&◌, Option, none, some, List, if◌then◌else◌, Result, ok, err,
  Error, Async, pure, throw, throw_if, lift, try_catch, ◌>>=◌, ◌>>◌, ◌==◌, includes, split, part,
  ◌≡◌, ◌≢◌, is_some,
}
use research_service_workben.Authorization.GroupPlugin.{
  GroupStatus, NewStatus, GroupManagementPlugin,
}

-- The status of the item that a group has in the table: a strongly consistent read, and a write
-- (`none` deletes the item) on a condition on that status.
pub record GroupTable (W : Type 0) : Type 0 where
  pub get_status : String → Async W (Option String)
  pub write_if : String → (Option String → Bool) → Option String → Async W (Unit {0})

-- The roles that the user management service keeps.
pub record UserManagement (W : Type 0) : Type 0 where
  pub create_role : String → Async W (Unit {0})
  pub delete_role : String → Async W (Unit {0})
  pub get_user_roles : String → Async W (List String)
  -- `none` is a part that the group's id lacks.
  pub list_users_for_role : (role project_id : Option String) → Async W (List String)
  pub add_user_to_role : String → String → Async W (Unit {0})
  pub remove_user_from_role : String → String → Async W (Unit {0})
  pub validate_user_roles : String → List String → Async W (List String)

-- `GetGroupMetadataParser.parse(item).status`
abbrev pub parse_status : String → Result GroupStatus
parse_status s =
    if s == "active"
    then ok GroupStatus.active
    else if s == "delete_pending"
    then ok GroupStatus.delete_pending
    else err (Error.other "ZodError")

-- The conditions of `setGroupStatus`, on the status of the item.
abbrev pub not_exists : Option String → Bool
not_exists none = true
not_exists (some s) = false

abbrev pub has_status : String → Option String → Bool
has_status t none = false
has_status t (some s) = s == t

-- The errors of the table, by their names.
abbrev pub table_error : Error → Error
table_error Error.resource_not_found = Error.plugin_configuration
table_error Error.throughput_of_table = Error.too_many_requests
table_error Error.request_limit = Error.too_many_requests
table_error e = e

abbrev pub status_error : Error → Error
status_error Error.conditional_check_failed = Error.forbidden
status_error e = table_error e

abbrev pub role_error : Error → Error
role_error Error.role_not_found = Error.group_not_found
role_error e = e

abbrev pub create_error : Error → Error
create_error Error.role_already_exists = Error.group_already_exists
create_error e = e

abbrev pub is_group_not_found : Error → Bool
is_group_not_found Error.group_not_found = true
is_group_not_found e = false

abbrev pub is_active : GroupStatus → Bool
is_active GroupStatus.active = true
is_active GroupStatus.delete_pending = false

abbrev pub is_delete_pending : GroupStatus → Bool
is_delete_pending GroupStatus.active = false
is_delete_pending GroupStatus.delete_pending = true

abbrev found_status : Option String → Result GroupStatus
found_status none = err Error.group_not_found
found_status (some s) = parse_status s

module _ {W : Type 0} (t : GroupTable W) (u : UserManagement W) where
  unfoldable pub get_group_status : String → Async W GroupStatus
  get_group_status group_id =
      try_catch (do item ← t.get_status group_id; lift (found_status item))
        (λ e. throw (table_error e))

  unfoldable pub set_group_status : String → NewStatus → Async W NewStatus
  set_group_status group_id NewStatus.active =
      try_catch (do t.write_if group_id not_exists (some "active"); pure NewStatus.active)
        (λ e. throw (status_error e))
  set_group_status group_id NewStatus.delete_pending =
      try_catch
        (do
          t.write_if group_id (λ s. has_status "active" s || has_status "delete_pending" s)
              (some "delete_pending")
          pure NewStatus.delete_pending)
        (λ e. throw (status_error e))
  set_group_status group_id NewStatus.deleted =
      try_catch (do t.write_if group_id (has_status "delete_pending") none; pure NewStatus.deleted)
        (λ e. throw (status_error e))

  -- The first `try` of `createGroup`: the group must not be there.
  unfoldable pub ensure_new : String → Async W (Unit {0})
  ensure_new group_id =
      try_catch
        (do
          status ← get_group_status group_id
          throw_if (is_delete_pending status || is_active status) Error.group_already_exists)
        (λ e. throw_if (if is_group_not_found e then false else true) e)

  unfoldable pub create_group : String → Async W String
  create_group group_id =
      ensure_new group_id
      >> try_catch
          (do u.create_role group_id; set_group_status group_id NewStatus.active; pure group_id)
          (λ e. throw (create_error e))

  unfoldable pub delete_group : String → Async W String
  delete_group group_id =
      try_catch (do u.delete_role group_id; pure group_id) (λ e. throw (role_error e))

  unfoldable pub get_user_groups : String → Async W (List String)
  get_user_groups user_id = u.get_user_roles user_id

  -- The parts of the group's id, before and after `#`, are checked in the service's request.
  unfoldable pub get_group_users : String → Async W (List String)
  get_group_users group_id =
      let parts = split b'#' group_id in
      try_catch (u.list_users_for_role (part 1 parts) (part 0 parts)) (λ e. throw (role_error e))

  unfoldable pub add_user_to_group : String → String → Async W (String × String)
  add_user_to_group user_id group_id =
      try_catch
        (do
          status ← get_group_status group_id
          throw_if (is_delete_pending status) Error.group_not_found
          u.add_user_to_role user_id group_id
          pure (user_id, group_id))
        (λ e. throw (role_error e))

  unfoldable pub is_user_assigned_to_group : String → String → Async W Bool
  is_user_assigned_to_group user_id group_id = do
    group_ids ← get_user_groups user_id
    pure (includes group_id group_ids)

  unfoldable pub remove_user_from_group : String → String → Async W (String × String)
  remove_user_from_group user_id group_id =
      try_catch (do u.remove_user_from_role user_id group_id; pure (user_id, group_id))
        (λ e. throw (role_error e))

  unfoldable pub does_group_exist : String → Async W Bool
  does_group_exist group_id =
      try_catch (do status ← get_group_status group_id; pure (is_active status))
        (λ e. if is_group_not_found e then pure false else throw e)

  unfoldable pub validate_user_groups : String → List String → Async W (List String)
  validate_user_groups user_id group_ids = u.validate_user_roles user_id group_ids

  abbrev pub wbc_group_management_plugin : GroupManagementPlugin W
  wbc_group_management_plugin = record {
    create_group = create_group;
    delete_group = delete_group;
    get_user_groups = get_user_groups;
    get_group_users = get_group_users;
    add_user_to_group = add_user_to_group;
    is_user_assigned_to_group = is_user_assigned_to_group;
    remove_user_from_group = remove_user_from_group;
    get_group_status = get_group_status;
    set_group_status = set_group_status;
    does_group_exist = does_group_exist;
    validate_user_groups = validate_user_groups;
  }
