-- ===== src/Authorization/Permissions.antt =====
-- workbench-core/authorization/src/dynamicAuthorization/ddbDynamicAuthorizationPermissionsPlugin.ts.
-- The table of DynamoDB and the router of radix3 are parameters.
pub mod Routes
pub mod Removal
use Prim.Native.Nat.{min}
use research_service_workben.Base.{
  ℕ, String, Bool, true, false, ◌||◌, Option, none, some, List, [], ◌∷◌, ◌++◌, map, if◌then◌else◌,
  Result, ok, err, Error, Async, pure, throw, throw_if, lift, try_catch, ◌>>=◌, ◌>>◌, ◌>>?◌,
  for_each, map_result, Dict, lookup, is_some, ltb, length, chunk, collect, truthy, Page, includes,
  ◌<>◌,
}
use research_service_workben.Authorization.Models.{
  Action, Identity, IdentityType, IdentityPermission, DynamicOperation,
}
use research_service_workben.Authorization.Keys.{
  IdentityPermissionItem, action_text, identity_key, identity_permissions_partition_key,
  identity_permissions_sort_key, transform_identity_permissions_to_item,
  transform_item_to_identity_permission,
}
use research_service_workben.Authorization.PermissionsPlugin.{
  SubjectQuery, IdentityQuery, RouteOperations, DynamicAuthorizationPermissionsPlugin,
}

-- The table: queries on its secondary index and on its keys, from a pagination token on, and
-- transactions. A put holds on the condition that no item has its key.
pub record PermissionTable (W : Type 0) : Type 0 where
  pub query_identity :
      (identity : String) (limit : ℕ) (start : Option String)
      → Async W (Page IdentityPermissionItem)
  pub query_subject :
      (pk : String) (begins : Option String) (identities : Option (List String)) (limit : ℕ)
      (start : Option String)
      → Async W (Page IdentityPermissionItem)
  pub commit_puts : List IdentityPermissionItem → Async W (Unit {0})
  pub commit_deletes : List (String × String) → Async W (Unit {0})

-- The routes, and which of some inserted routes the router finds for a path, with its parameters.
pub record RouteTable : Type 0 where
  pub routes_ignored : Dict (Dict Bool)
  pub dynamic_routes : Dict (Dict (List DynamicOperation))
  pub find_route : List String → String → Option (String × Dict String)

abbrev pub keys {ℓ} : {V : Type ℓ} → Dict V → List String
keys [] = []
keys ((k, v) ∷ d) = k ∷ keys d

-- `${method}:${route}` for each method of each route
unfoldable pub route_methods {ℓ} : {V : Type ℓ} → Dict (Dict V) → List String
route_methods [] = []
route_methods ((route, methods) ∷ m) =
    map (λ method. method <> ":" <> route) (keys methods) ++ route_methods m

abbrev pub any_of : List String → List String → Bool
any_of [] ys = false
any_of (x ∷ xs) ys = includes x ys || any_of xs ys

-- The constructor: no method of a route is both ignored and protected.
unfoldable pub new_plugin : RouteTable → Result RouteTable
new_plugin r =
    if any_of (route_methods r.dynamic_routes) (route_methods r.routes_ignored)
    then err Error.route_map
    else ok r

abbrev pub payload {ℓ} : {V : Type ℓ} → Dict V → Option (String × Dict String) → Option V
payload m none = none
payload m (some (route, params)) = lookup route m

abbrev pub get_in {ℓ} : {V : Type ℓ} → String → Option (Dict V) → Option V
get_in k none = none
get_in k (some d) = lookup k d

abbrev or_false : Option Bool → Bool
or_false none = false
or_false (some b) = b

abbrev pub found_params : Option (String × Dict String) → Dict String
found_params none = []
found_params (some (route, params)) = params

abbrev found_operations : Dict String → Option (List DynamicOperation) → Result RouteOperations
found_operations params none = err Error.route_not_found
found_operations params (some ops) = ok (record { dynamic_operations = ops; path_params = params })

module _ (r : RouteTable) where
  unfoldable pub is_route_ignored : String → String → Bool
  is_route_ignored route method =
      or_false
        (get_in method (payload r.routes_ignored (r.find_route (keys r.routes_ignored) route)))

  unfoldable pub protected_operations : String → String → Option (List DynamicOperation)
  protected_operations route method =
      get_in method (payload r.dynamic_routes (r.find_route (keys r.dynamic_routes) route))

  unfoldable pub is_route_protected : String → String → Bool
  is_route_protected route method = is_some (protected_operations route method)

  unfoldable pub get_dynamic_operations_by_route : String → String → Result RouteOperations
  get_dynamic_operations_by_route route method =
      found_operations (found_params (r.find_route (keys r.dynamic_routes) route))
        (protected_operations route method)

abbrev pub default_api_page_size : ℕ
default_api_page_size = 50

abbrev pub max_api_page_size : ℕ
max_api_page_size = 1000

abbrev pub page_limit : Option ℕ → ℕ
page_limit none = min default_api_page_size max_api_page_size
page_limit (some n) = min n max_api_page_size

abbrev pub on_page : {A B : Type 0} → (A → Result B) → Page A → Result (Page B)
on_page f p = map_result f p.items >>? λ items.
    ok (record { items = items; pagination_token = p.pagination_token })

abbrev pub creation_error : Error → Error
creation_error Error.transaction_canceled = Error.permission_creation
creation_error e = e

abbrev pub deletion_error : Error → Error
deletion_error Error.transaction_canceled = Error.retry
deletion_error e = e

abbrev option_map : {A B : Type 0} → (A → B) → Option A → Option B
option_map f none = none
option_map f (some a) = some (f a)

-- More than a hundred identities do not fit in an IN filter.
abbrev too_many : Option (List Identity) → Bool
too_many none = false
too_many (some identities) = ltb 100 (length identities)

unfoldable pub deletion_key : IdentityPermission → String × String
deletion_key p = (
  identity_permissions_partition_key p.subject_type p.subject_id,
  identity_permissions_sort_key p.action p.effect p.identity_type p.identity_id,
)

module _ {W : Type 0} (t : PermissionTable W) where
  unfoldable pub get_identity_permissions_by_identity :
      IdentityQuery → Async W (Page IdentityPermission)
  get_identity_permissions_by_identity q = do
    page ←
        t.query_identity (identity_key q.identity_type q.identity_id) (page_limit q.limit)
          (truthy q.pagination_token)
    lift (on_page transform_item_to_identity_permission page)

  unfoldable pub get_identity_permissions_by_subject :
      SubjectQuery → Async W (Page IdentityPermission)
  get_identity_permissions_by_subject q = do
    throw_if (too_many q.identities) Error.throughput_exceeded
    page ←
        t.query_subject (identity_permissions_partition_key q.subject_type q.subject_id)
          (option_map action_text q.action)
          (option_map (map (λ (i : Identity). identity_key i.identity_type i.identity_id))
            q.identities)
          (page_limit q.limit) (truthy q.pagination_token)
    lift (on_page transform_item_to_identity_permission page)

  unfoldable pub create_identity_permissions :
      List IdentityPermission → Async W (List IdentityPermission)
  create_identity_permissions ps = do
    throw_if (ltb 100 (length ps)) Error.throughput_exceeded
    try_catch (t.commit_puts (map transform_identity_permissions_to_item ps))
        (λ e. throw (creation_error e))
    pure ps

  unfoldable pub delete_identity_permissions :
      List IdentityPermission → Async W (List IdentityPermission)
  delete_identity_permissions ps = do
    throw_if (ltb 100 (length ps)) Error.throughput_exceeded
    try_catch (t.commit_deletes (map deletion_key ps)) (λ e. throw (deletion_error e))
    pure ps

  abbrev pub subject_query : String → String → Option String → SubjectQuery
  subject_query subject_type subject_id token = record {
    subject_id = subject_id;
    subject_type = subject_type;
    action = none;
    identities = none;
    pagination_token = token;
    limit = none;
  }

  -- All pages are read first; then their permissions are deleted, a hundred at a time.
  unfoldable pub delete_subject_identity_permissions :
      ℕ → String → String → Async W (List IdentityPermission)
  delete_subject_identity_permissions fuel subject_type subject_id = do
    all_identity_permissions ←
        collect fuel
          (λ token.
            get_identity_permissions_by_subject (subject_query subject_type subject_id token))
          none []
    for_each (λ ps. delete_identity_permissions ps >> pure tt) (chunk 100 all_identity_permissions)
    pure all_identity_permissions

  abbrev pub ddb_permissions_plugin : RouteTable → DynamicAuthorizationPermissionsPlugin W
  ddb_permissions_plugin r = record {
    is_route_ignored = λ route method. pure (is_route_ignored r route method);
    is_route_protected = λ route method. pure (is_route_protected r route method);
    get_dynamic_operations_by_route =
        λ route method. lift (get_dynamic_operations_by_route r route method);
    get_identity_permissions_by_identity = get_identity_permissions_by_identity;
    get_identity_permissions_by_subject = get_identity_permissions_by_subject;
    create_identity_permissions = create_identity_permissions;
    delete_identity_permissions = delete_identity_permissions;
    delete_subject_identity_permissions = delete_subject_identity_permissions;
  }
