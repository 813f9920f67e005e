-- ===== src/Datasets/Endpoints/Access.antt =====
-- Whom an external endpoint is given to, and who may mount it.
use research_service_workben.Base.{
  ℕ, String, true, not, List, [], ◌∷◌, ◌++◌, map, ◌≡◌, sym, ap, ◌∙◌, inl, inr, ok, arith, Exists,
  Error, pure, promise_all, ◌>>=◌, ◌>>◌, any-append, concat, Bool-cases, ◌==◌, bind-ok,
  ok_injective, promise_all-ok, throw_if-bind-ok,
}
use mathlib.Core.Bool.{false≢true}
use research_service_workben.Authorization.Models.{AuthenticatedUser}
use research_service_workben.Datasets.Models.{
  DataSetPermission, PermissionsResponse, GetAccessPermissionRequest, ExternalEndpoint,
  DataSetMountObject,
}
use research_service_workben.Datasets.Plugins.{DataSetService}
use research_service_workben.Datasets.Service.{with_audit-ok, get_data_set}
use research_service_workben.Datasets.Endpoints.{
  generate_mount_object, has_level, asking, no_items, get_external_end_point,
  get_authenticated_user_dataset_permissions, mount, mount_with, get_data_set_mount_object,
}

module _ {W : Type 0} (s : DataSetService W) where
  -- The authorization plugin answered the request with a permission of the level.
  abbrev pub IsGranted : String → GetAccessPermissionRequest → Type 0
  IsGranted level q =
      (w : W) × (r : PermissionsResponse) × ((s.authz.get_access_permissions q w).0 ≡ ok r)
      × (has_level level r.permissions ≡ true)

  promise_all-IsGranted :
      (level : String) (qs : List GetAccessPermissionRequest) (w : W)
      (rs : List PermissionsResponse)
      → (promise_all s.authz.get_access_permissions qs w).0 ≡ ok rs
      → has_level level (concat (map (λ r. r.permissions) rs)) ≡ true
      → Exists (IsGranted level) qs
  promise_all-IsGranted level [] w rs h k =
      let none_there =
        ap (λ rs. has_level level (concat (map (λ r. r.permissions) rs))) (ok_injective h) in
      absurd (false≢true (none_there ∙ k))
  promise_all-IsGranted level (q ∷ qs) w rs h k =
      let (r, rest, e, f, same) = promise_all-ok s.authz.get_access_permissions q qs w h in
      let here : has_level level (r.permissions ++ concat (map (λ r. r.permissions) rest)) ≡ true =
        ap (λ rs. has_level level (concat (map (λ r. r.permissions) rs))) same ∙ k in
      let split =
        any-append (λ (p : DataSetPermission). p.access_level == level) r.permissions
          (concat (map (λ r. r.permissions) rest)) in
      elim (Bool-cases (has_level level r.permissions)) [
        | inl first ↦ inl (w, r, e, first)
        | inr not_first ↦ inr (
            promise_all-IsGranted level qs (s.authz.get_access_permissions q w).1 rest f
              (ground (arith, split, here)))
      ]

  -- What the user and the user's groups are asked for.
  abbrev pub own_requests : AuthenticatedUser → String → List GetAccessPermissionRequest
  own_requests u id = asking id u.id "USER" ∷ map (λ role. asking id role "GROUP") u.roles

  -- getDataSetMountObject returns the mount object of an endpoint that the metadata has for the data
  -- set, and only if the user, or one of the user's groups, was given a permission on the data set of
  -- exactly the endpoint's access level.
  pub get_data_set_mount_object-IsGranted :
      (fuel : ℕ) (id endpoint_id : String) (u : AuthenticatedUser) (w : W) {m : DataSetMountObject}
      → (get_data_set_mount_object s fuel id endpoint_id u w).0 ≡ ok m
      → (e : ExternalEndpoint) × (m ≡ generate_mount_object e)
        × ((v : W) × ((s.db.get_data_set_end_point_details id endpoint_id v).0 ≡ ok e))
        × Exists (IsGranted e.access_level) (own_requests u id)
  unfolding get_data_set_mount_object get_external_end_point
      get_authenticated_user_dataset_permissions
  get_data_set_mount_object-IsGranted fuel id endpoint_id u w h =
      let own = get_authenticated_user_dataset_permissions s u id in
      let asked = own >>= mount_with s id endpoint_id u in
      let ask = promise_all s.authz.get_access_permissions (own_requests u id) in
      let inner =
        with_audit-ok s u "getDataSetMountObject" (get_data_set s fuel id u >> asked) w h in
      let (d, there, h1) = bind-ok (get_data_set s fuel id u) (λ _. asked) w inner in
      let w1 = (get_data_set s fuel id u w).1 in
      let (ps, given, h2) = bind-ok own (mount_with s id endpoint_id u) w1 h1 in
      let (rs, answers, flat) =
        bind-ok ask
          (λ (rs : List PermissionsResponse). pure {W = W} (concat (map (λ r. r.permissions) rs)))
          w1 given in
      let w2 = (own w1).1 in
      let details = get_external_end_point s id endpoint_id u in
      let (some_given, h3) =
        throw_if-bind-ok (no_items ps) Error.not_authorized (details >>= mount s ps) w2 h2 in
      let (e, read, h4) = bind-ok details (mount s ps) w2 h3 in
      let stored =
        with_audit-ok s u "getExternalEndPoint" (s.db.get_data_set_end_point_details id endpoint_id)
          w2 read in
      let (level, h5) =
        throw_if-bind-ok (not (has_level e.access_level ps)) Error.not_authorized
          (pure (generate_mount_object e)) (details w2).1 h4 in
      let has : has_level e.access_level ps ≡ true = ground (arith, level) in
      (
        e,
        sym (ok_injective h5),
        (w2, stored),
        promise_all-IsGranted e.access_level (own_requests u id) w1 rs answers
            (ap (has_level e.access_level) (ok_injective flat) ∙ has),
      )
