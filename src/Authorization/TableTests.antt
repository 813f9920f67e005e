-- ===== src/Authorization/TableTests.antt =====
-- Runs of the permissions on small inputs: the table and its keys, rules, routes and variables.
use research_service_workben.Base.{
  sym, keep, any, ap, ◌∙◌, List, eq_iff, split, Error, if◌then◌else◌, ◌<>◌, String, Bool, true,
  false, none, some, [], ◌∷◌, ◌≡◌, refl, ◌↔◌, ◌⊎◌, Result, ok, err, arith, pure, not, ◌&&◌, IsPaged,
  ◌==◌, lookup,
}
use research_service_workben.Authorization.Models.{
  read, update, allow, AuthenticatedUser, Permission, Operation, IdentityPermission,
}
use research_service_workben.Authorization.Keys.{
  IdentityPermissionItem, transform_identity_permissions_to_item,
  transform_item_to_identity_permission, identity_permissions_partition_key,
  identity_permissions_sort_key, decompose_partition_key, decompose_sort_key,
}
use research_service_workben.Authorization.Keys.RoundTrip.{
  IsStorable, SameRight, transform_item-transform_identity_permissions, same_keys-SameRight,
}
use research_service_workben.Authorization.Casl.{
  identity_rule, identity_conditions, dynamic_request,
}
use research_service_workben.Authorization.Static.{
  StaticPermissionsPlugin, with_auth, next, check_method, is_route_ignored,
}
use research_service_workben.Authorization.Static.Routes.{with_auth-next_iff, IsPermitted}
use research_service_workben.Authorization.Template.{replace_params, scan, render}
use research_service_workben.Authorization.Permissions.{
  PermissionTable, RouteTable, new_plugin, get_in, route_methods,
  delete_subject_identity_permissions, deletion_key, subject_query,
  get_identity_permissions_by_subject,
}
use research_service_workben.Authorization.Permissions.Routes.{new_plugin-disjoint}
use research_service_workben.Authorization.Permissions.Removal.{
  IsServed, has_key, IsAvailable, delete_subject_identity_permissions-stored,
}
use research_service_workben.Authorization.Samples.{alice, casl, may_read, read_d1}

-- A table of permissions: a list of items, which it serves in one page and deletes by their keys.
abbrev Stored : Type 0
Stored = List IdentityPermissionItem

abbrev item : String → IdentityPermissionItem
item pk = record {
  pk = pk;
  sk = "READ|ALLOW|GROUP|researchers";
  action = read;
  effect = allow;
  identity = "GROUP|researchers";
  conditions = none;
  fields = none;
  description = none;
}

abbrev remaining : List (String × String) → Stored → Stored
remaining ks items = keep (λ (i : IdentityPermissionItem). not (has_key i.pk i.sk ks)) items

abbrev store : PermissionTable Stored
store = record {
  query_identity = λ identity limit start. pure (record { items = []; pagination_token = none });
  query_subject = λ pk begins identities limit start w. (
    ok (record {
      items = keep (λ (i : IdentityPermissionItem). i.pk == pk) w;
      pagination_token = none;
    }),
    w,
  );
  commit_puts = λ items. pure tt;
  commit_deletes = λ ks w. (ok tt, remaining ks w);
}

abbrev is_stored : Stored → String → String → Bool
is_stored w pk sk = any (λ (i : IdentityPermissionItem). i.pk == pk && i.sk == sk) w

has_key_same :
    (pk sk pk' sk' : String) (ks : List (String × String))
    → (pk == pk') ≡ true
    → (sk == sk') ≡ true
    → has_key pk sk ks ≡ has_key pk' sk' ks
has_key_same pk sk pk' sk' ks e f =
    ap (λ k. has_key k sk ks) ((eq_iff pk pk').0 e)
    ∙ ap (λ k. has_key pk' k ks) ((eq_iff sk sk').0 f)

is_stored-remaining :
    (ks : List (String × String)) (w : Stored) (pk sk : String)
    → is_stored (remaining ks w) pk sk ≡ (is_stored w pk sk && not (has_key pk sk ks))
is_stored-remaining ks [] pk sk = refl
is_stored-remaining ks (i ∷ w) pk sk =
    ground (arith, is_stored-remaining ks w pk sk, has_key_same i.pk i.sk pk sk ks)

store-IsAvailable : IsAvailable store is_stored
store-IsAvailable = record {
  commits = λ ks w few distinct. refl;
  deletes = λ ks w pk sk done. is_stored-remaining ks w pk sk;
}

-- The permission on `d1`, and one on `d2`.
abbrev two_items : Stored
two_items = item "Dataset|d1" ∷ item "Dataset|d2" ∷ []

one_page :
    IsPaged
      (λ token.
        get_identity_permissions_by_subject store (subject_query store "Dataset" "d1" token))
      (λ token. may_read ∷ [])
      (λ token. 0)
      two_items
unfolding get_identity_permissions_by_subject split identity_permissions_partition_key
    transform_item_to_identity_permission decompose_partition_key decompose_sort_key
one_page = record {
  page = λ t. record { items = may_read ∷ []; pagination_token = none };
  get_page = λ t. refl;
  last = λ t e. refl;
  more = λ t n e. cc;
}

other_key : (pk : String) → ("Dataset|d1" == pk) ≡ true → ("Dataset|d2" == pk) ≡ false
other_key pk e = sym (ap (λ k. "Dataset|d2" == k) ((eq_iff "Dataset|d1" pk).0 e))

served : IsServed store is_stored "Dataset" "d1" (λ token. may_read ∷ []) (λ token. 0) two_items
unfolding deletion_key identity_permissions_partition_key identity_permissions_sort_key
served = record {
  paged = one_page;
  distinct = (refl, tt);
  serves = λ pk sk. ground (arith, other_key pk);
}

delete_subject_identity_permissions-stored_example :
    let (r, w') = delete_subject_identity_permissions store 1 "Dataset" "d1" two_items in
    (r ≡ ok (may_read ∷ []))
    × (is_stored w' "Dataset|d2" "READ|ALLOW|GROUP|researchers" ≡ (
        is_stored two_items "Dataset|d2" "READ|ALLOW|GROUP|researchers"
        && not (identity_permissions_partition_key "Dataset" "d1" == "Dataset|d2")))
delete_subject_identity_permissions-stored_example =
    delete_subject_identity_permissions-stored store is_stored store-IsAvailable "Dataset" "d1" 1
      two_items "Dataset|d2" "READ|ALLOW|GROUP|researchers" served (omega arith)

may_read-IsStorable : IsStorable may_read
may_read-IsStorable = record {
  subject_type = ground arith;
  subject_id = ground arith;
  identity_id = ground arith;
}

transform_item-transform_identity_permissions_example :
    transform_item_to_identity_permission (transform_identity_permissions_to_item may_read)
    ≡ ok may_read
transform_item-transform_identity_permissions_example =
    transform_item-transform_identity_permissions may_read may_read-IsStorable

abbrev described : IdentityPermission
described = record may_read { description = some "read access" }

same_keys-SameRight_example : SameRight may_read described
unfolding transform_identity_permissions_to_item
same_keys-SameRight_example =
    same_keys-SameRight may_read described may_read-IsStorable
      (record {
        subject_type = ground arith;
        subject_id = ground arith;
        identity_id = ground arith;
      })
      refl refl

matched : casl.matches (identity_rule false may_read) (dynamic_request read_d1) ≡ true
unfolding identity_rule identity_conditions dynamic_request
matched = refl

-- Researchers may update runs, and read them, but the second is denied again.
abbrev update_runs : Permission
update_runs = record {
  effect = allow;
  action = update;
  subject = "Run";
  fields = none;
  reason = none;
}

abbrev run_update : Operation
run_update = record { action = update; subject = "Run"; field = none }

abbrev static_permissions : StaticPermissionsPlugin
static_permissions = record {
  permissions_map = ("researchers", update_runs ∷ []) ∷ [];
  routes_map = ("/runs", ("PUT", run_update ∷ []) ∷ []) ∷ [];
  routes_ignored = ("/login", ("GET", true) ∷ []) ∷ [];
}

with_auth-next_iff_example :
    (with_auth (λ p r. p == r) casl static_permissions (some alice) "/runs" "PUT" ≡ next) ↔ (
      (check_method "PUT" ≡ true)
      × ((is_route_ignored static_permissions "/runs" "PUT" ≡ true)
          ⊎ ((u : AuthenticatedUser) × (some alice ≡ some u)
              × IsPermitted (λ p r. p == r) casl static_permissions u "/runs" "PUT")))
with_auth-next_iff_example =
    with_auth-next_iff (λ p r. p == r) casl static_permissions (some alice) "/runs" "PUT"

abbrev routes : RouteTable
routes = record {
  routes_ignored = ("/login", ("GET", true) ∷ []) ∷ [];
  dynamic_routes =
      ("/login", ("PUT", []) ∷ []) ∷ ("/datasets/:id", ("GET", read_d1 ∷ []) ∷ []) ∷ [];
  find_route = λ rs path. none;
}

routes_accepted : new_plugin routes ≡ ok routes
unfolding new_plugin route_methods
routes_accepted = refl

new_plugin-disjoint_example : get_in "GET" (lookup "/login" routes.dynamic_routes) ≡ none
new_plugin-disjoint_example = new_plugin-disjoint routes routes "/login" "GET" routes_accepted refl

abbrev id_value : String → Result String
id_value name = if name == "id" then ok "d1" else err Error.param_not_found

-- What follows the first `}` belongs to the name, up to the last `}` before a `{`.
replaced : replace_params (λ name. ok ("<" <> name <> ">")) "a/${id}/b}/${c" ≡ ok "a/<id}/b>/${c"
unfolding replace_params scan render
replaced = refl
