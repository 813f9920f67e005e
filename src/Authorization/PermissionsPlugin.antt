-- ===== src/Authorization/PermissionsPlugin.antt =====
-- The interface
-- workbench-core/authorization/src/dynamicAuthorization/dynamicAuthorizationPermissionsPlugin.ts,
-- over the world `W` that its methods change.
use research_service_workben.Base.{ℕ, String, Bool, Option, List, Dict, Async, Page}
use research_service_workben.Authorization.Models.{
  Action, IdentityType, Identity, IdentityPermission, DynamicOperation,
}

pub record SubjectQuery : Type 0 where
  pub subject_id : String
  pub subject_type : String
  pub action : Option Action
  pub identities : Option (List Identity)
  pub pagination_token : Option String
  pub limit : Option ℕ

pub record IdentityQuery : Type 0 where
  pub identity_id : String
  pub identity_type : IdentityType
  pub pagination_token : Option String
  pub limit : Option ℕ

pub record RouteOperations : Type 0 where
  pub dynamic_operations : List DynamicOperation
  pub path_params : Dict String

pub record DynamicAuthorizationPermissionsPlugin (W : Type 0) : Type 0 where
  pub is_route_ignored : (route method : String) → Async W Bool
  pub is_route_protected : (route method : String) → Async W Bool
  pub get_dynamic_operations_by_route : (route method : String) → Async W RouteOperations
  pub get_identity_permissions_by_identity : IdentityQuery → Async W (Page IdentityPermission)
  pub get_identity_permissions_by_subject : SubjectQuery → Async W (Page IdentityPermission)
  pub create_identity_permissions : List IdentityPermission → Async W (List IdentityPermission)
  pub delete_identity_permissions : List IdentityPermission → Async W (List IdentityPermission)
  -- `hang` where the fuel does not reach the last page
  pub delete_subject_identity_permissions :
      ℕ → (subject_type subject_id : String) → Async W (List IdentityPermission)
