-- ===== src/Authorization/Static.antt =====
-- workbench-core/authorization/src/staticPermissionsPlugin.ts, authorizationService.ts and
-- authorizationMiddleware.ts. A route that is a regular expression is matched by the parameter
-- `full_match pattern route`: whether `route.match(pattern)` finds `route` itself. Keys hold no
-- dot, which lodash would read as a path. The logger's warnings are left out.
pub mod Routes
use research_service_workben.Base.{
  ℕ, String, Bool, true, false, Option, none, some, List, [], ◌∷◌, ◌++◌, if◌then◌else◌, Result, ok,
  err, hang, Error, Dict, lookup, ◌==◌, includes, ◌>>?◌, is_some,
}
use research_service_workben.Authorization.Models.{AuthenticatedUser, Permission, Operation}
use research_service_workben.Authorization.Casl.{Casl, is_authorized}

pub record StaticPermissionsPlugin : Type 0 where
  pub permissions_map : Dict (List Permission)
  pub routes_map : Dict (Dict (List Operation))
  pub routes_ignored : Dict (Dict Bool)

abbrev get_all : Option (List Permission) → List Permission
get_all none = []
get_all (some ps) = ps

unfoldable pub permissions_by_roles : Dict (List Permission) → List String → List Permission
permissions_by_roles m [] = []
permissions_by_roles m (role ∷ roles) = get_all (lookup role m) ++ permissions_by_roles m roles

unfoldable pub get_permissions_by_user :
    StaticPermissionsPlugin → AuthenticatedUser → List Permission
get_permissions_by_user s user = permissions_by_roles s.permissions_map user.roles

-- `_.get(o, method) === true`
abbrev is_true : Option Bool → Bool
is_true none = false
is_true (some b) = b

abbrev get_in {ℓ} : {V : Type ℓ} → String → Option (Dict V) → Option V
get_in k none = none
get_in k (some d) = lookup k d

unfoldable pub is_route_ignored : StaticPermissionsPlugin → String → String → Bool
is_route_ignored s route method = is_true (get_in method (lookup route s.routes_ignored))

-- The first entry whose pattern matches the whole route, as the broken-off `_.forEach` finds it.
unfoldable pub find_route {ℓ} : {V : Type ℓ} → (String → String → Bool) → String → Dict V → Option V
find_route full_match route [] = none
find_route full_match route ((pattern_text, v) ∷ m) =
    if full_match pattern_text route then some v else find_route full_match route m

abbrev secured : Option (List Operation) → Result (List Operation)
secured none = err Error.route_not_secured
secured (some ops) = ok ops

-- What the middleware does with the request: it passes it on, or answers with a status.
pub data Handled : Type 0 where
  next : Handled
  status : ℕ → Handled

-- `checkMethod`, by HTTPMethodParser
unfoldable pub check_method : String → Bool
check_method method =
    includes method
      ("GET" ∷ "DELETE" ∷ "CONNECT" ∷ "HEAD" ∷ "OPTIONS" ∷ "PATCH" ∷ "POST" ∷ "PUT" ∷ "TRACE" ∷ [])

-- `hang` does not arise from the methods of this file.
abbrev pub answer : Result (Unit {0}) → Handled
answer (ok u) = next
answer (err e) = status 403
answer hang = status 403

-- Every error becomes a ForbiddenError.
abbrev pub or_forbidden : Result (Unit {0}) → Result (Unit {0})
or_forbidden (ok u) = ok u
or_forbidden (err e) = err Error.forbidden
or_forbidden hang = hang

module _ (full_match : String → String → Bool) where
  unfoldable pub get_operations_by_route :
      StaticPermissionsPlugin → String → String → Result (List Operation)
  get_operations_by_route s route method =
      if is_route_ignored s route method
      then ok []
      else (if is_some (lookup route s.routes_map)
          then secured (get_in method (lookup route s.routes_map))
          else secured (get_in method (find_route full_match route s.routes_map)))

  unfoldable pub is_authorized_on_route :
      Casl → StaticPermissionsPlugin → AuthenticatedUser → String → String → Result (Unit {0})
  is_authorized_on_route c s user route method = or_forbidden (
      get_operations_by_route s route method >>? λ operations.
      is_authorized c (get_permissions_by_user s user) operations)

  -- `withAuth`, on the user that authentication left in `res.locals`
  unfoldable pub with_auth :
      Casl → StaticPermissionsPlugin → Option AuthenticatedUser → String → String → Handled
  with_auth c s user route method =
      if check_method method
      then (if is_route_ignored s route method then next else elim user [
        | none ↦ status 403
        | some u ↦ answer (is_authorized_on_route c s u route method)
      ])
      else status 403
