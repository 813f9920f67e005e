-- ===== src/Authorization/Static/Routes.antt =====
-- Which requests the static authorization lets through.
use research_service_workben.Base.{
  String, Bool, true, Option, none, some, List, ◌≡◌, refl, ◌↔◌, ◌⊎◌, inl, inr, Result, ok, err,
  hang, arith, map, Bool-cases,
}
use mathlib.Core.Path.{subst}
use research_service_workben.Authorization.Models.{AuthenticatedUser, Operation}
use research_service_workben.Authorization.Casl.{Casl, permission_rule, operation_request}
use research_service_workben.Authorization.Casl.Deny.{MayAll, is_authorized_iff}
use research_service_workben.Authorization.Static.{
  StaticPermissionsPlugin, get_permissions_by_user, get_operations_by_route, is_route_ignored,
  is_authorized_on_route, with_auth, check_method, next,
}

module _ (full_match : String → String → Bool) (c : Casl) (s : StaticPermissionsPlugin) where
  -- The route asks for operations, each granted and none denied by the permissions of the roles.
  pub record IsPermitted (u : AuthenticatedUser) (route method : String) : Type 0 where
    pub operations : List Operation
    pub secured : get_operations_by_route full_match s route method ≡ ok operations
    pub granted :
        MayAll
          (λ p. p.effect)
          permission_rule
          c
          (get_permissions_by_user s u)
          (map operation_request operations)

  is_authorized_on_route-IsPermitted :
      (u : AuthenticatedUser) (route method : String)
      → is_authorized_on_route full_match c s u route method ≡ ok tt
      → IsPermitted u route method
  unfolding is_authorized_on_route
  is_authorized_on_route-IsPermitted u route method h = go _ refl h
    where
      go :
          (r : Result (List Operation))
          → get_operations_by_route full_match s route method ≡ r
          → is_authorized_on_route full_match c s u route method ≡ ok tt
          → IsPermitted u route method
      go (ok ops) e k = record {
        operations = ops;
        secured = e;
        granted = (is_authorized_iff c (get_permissions_by_user s u) ops).0 (ground arith);
      }
      go (err x) e k = absurd (ground arith)
      go hang e k = absurd (ground arith)

  IsPermitted-is_authorized_on_route :
      (u : AuthenticatedUser) (route method : String)
      → IsPermitted u route method
      → is_authorized_on_route full_match c s u route method ≡ ok tt
  unfolding is_authorized_on_route
  IsPermitted-is_authorized_on_route u route method p =
      rw (p.secured) (
        ground
          (arith, (is_authorized_iff c (get_permissions_by_user s u) p.operations).1 p.granted))

  -- The middleware passes a request on exactly when its method is an HTTP method and its route is
  -- ignored, or authentication left a user whose roles permit every operation of the route. In
  -- every other case it answers 403.
  pub with_auth-next_iff :
      (user : Option AuthenticatedUser) (route method : String)
      → (with_auth full_match c s user route method ≡ next) ↔ (
          (check_method method ≡ true)
          × ((is_route_ignored s route method ≡ true)
              ⊎ ((u : AuthenticatedUser) × (user ≡ some u) × IsPermitted u route method)))
  unfolding with_auth
  with_auth-next_iff none route method = ground arith
  with_auth-next_iff (some u) route method = (
    λ e. elim (Bool-cases (is_route_ignored s route method)) [
      | inl ignored ↦ (ground arith, inl ignored)
      | inr kept ↦ (
        ground arith,
        inr (u, refl, is_authorized_on_route-IsPermitted u route method (ground arith)),
      )
    ],
    λ (valid, allowed). elim allowed [
      | inl ignored ↦ ground arith
      | inr (v, e, p) ↦
          let same : v ≡ u = cc in
          let permitted = subst (λ x. IsPermitted x route method) same p in
          ground (arith, IsPermitted-is_authorized_on_route u route method permitted)
    ],
  )
