-- ===== src/Authorization/Lookups.antt =====
-- The methods of
-- workbench-core/authorization/src/dynamicAuthorization/dynamicAuthorizationService.ts that pass a
-- read on to a plugin.
use research_service_workben.Base.{String, Bool, List, Async, Page}
use research_service_workben.Authorization.Models.{IdentityPermission}
use research_service_workben.Authorization.PermissionsPlugin.{SubjectQuery, IdentityQuery}
use research_service_workben.Authorization.Service.{Plugins}

module _ {W : Type 0} (s : Plugins W) where
  unfoldable pub is_route_ignored : (route method : String) → Async W Bool
  is_route_ignored route method = s.permissions.is_route_ignored route method

  unfoldable pub is_route_protected : (route method : String) → Async W Bool
  is_route_protected route method = s.permissions.is_route_protected route method

  unfoldable pub get_identity_permissions_by_subject :
      SubjectQuery → Async W (Page IdentityPermission)
  get_identity_permissions_by_subject q = s.permissions.get_identity_permissions_by_subject q

  unfoldable pub get_identity_permissions_by_identity :
      IdentityQuery → Async W (Page IdentityPermission)
  get_identity_permissions_by_identity q = s.permissions.get_identity_permissions_by_identity q

  unfoldable pub get_group_users : String → Async W (List String)
  get_group_users group_id = s.groups.get_group_users group_id

  unfoldable pub get_user_groups : String → Async W (List String)
  get_user_groups user_id = s.groups.get_user_groups user_id

  unfoldable pub is_user_assigned_to_group : (user_id group_id : String) → Async W Bool
  is_user_assigned_to_group user_id group_id = s.groups.is_user_assigned_to_group user_id group_id

  unfoldable pub does_group_exist : String → Async W Bool
  does_group_exist group_id = s.groups.does_group_exist group_id
