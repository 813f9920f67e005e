-- ===== src/Authorization/GroupPlugin.antt =====
-- The interface workbench-core/authorization/src/dynamicAuthorization/groupManagementPlugin.ts,
-- over the world `W` that its methods change.
use research_service_workben.Base.{String, Bool, List, [], ◌∷◌, Async}

-- The statuses that a group is read with, and those that it can be set to.
pub data GroupStatus : Type 0 where
  active delete_pending : GroupStatus

pub data NewStatus : Type 0 where
  active delete_pending deleted : NewStatus

pub record GroupManagementPlugin (W : Type 0) : Type 0 where
  pub create_group : String → Async W String
  pub delete_group : String → Async W String
  pub get_user_groups : String → Async W (List String)
  pub get_group_users : String → Async W (List String)
  pub add_user_to_group : String → String → Async W (String × String)
  pub is_user_assigned_to_group : String → String → Async W Bool
  pub remove_user_from_group : String → String → Async W (String × String)
  pub get_group_status : String → Async W GroupStatus
  pub set_group_status : String → NewStatus → Async W NewStatus
  pub does_group_exist : String → Async W Bool
  pub validate_user_groups : String → List String → Async W (List String)

-- A call of a method of the plugin.
pub data Call : Type 0 where
  create_group delete_group get_user_groups get_group_users get_group_status : String → Call
  does_group_exist : String → Call
  add_user_to_group is_user_assigned_to_group remove_user_from_group : String → String → Call
  set_group_status : String → NewStatus → Call
  validate_user_groups : String → List String → Call

module _ {W : Type 0} (p : GroupManagementPlugin W) where
  -- The world after the call, whether it returned or threw.
  unfoldable pub perform : Call → W → W
  perform (Call.create_group k) w = (p.create_group k w).1
  perform (Call.delete_group k) w = (p.delete_group k w).1
  perform (Call.get_user_groups i) w = (p.get_user_groups i w).1
  perform (Call.get_group_users k) w = (p.get_group_users k w).1
  perform (Call.get_group_status k) w = (p.get_group_status k w).1
  perform (Call.does_group_exist k) w = (p.does_group_exist k w).1
  perform (Call.add_user_to_group i k) w = (p.add_user_to_group i k w).1
  perform (Call.is_user_assigned_to_group i k) w = (p.is_user_assigned_to_group i k w).1
  perform (Call.remove_user_from_group i k) w = (p.remove_user_from_group i k w).1
  perform (Call.set_group_status k s) w = (p.set_group_status k s w).1
  perform (Call.validate_user_groups i ks) w = (p.validate_user_groups i ks w).1

  unfoldable pub perform_all : List Call → W → W
  perform_all [] w = w
  perform_all (call ∷ calls) w = perform_all calls (perform call w)
