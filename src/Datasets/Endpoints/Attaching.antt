-- ===== src/Datasets/Endpoints/Attaching.antt =====
-- What it takes to give an identity an external endpoint on a data set, and to take one away.
use research_service_workben.Base.{
  ℕ, String, true, false, not, some, List, [], ◌∷◌, ◌++◌, ◌≡◌, sym, ap, ◌∙◌, ◌⊎◌, inl, inr, ok,
  arith, Error, pure, lift, ◌>>=◌, ◌>>◌, ◌==◌, keep, Bool-cases, bind-ok, ok_injective,
  throw_if-bind-ok,
}
use research_service_workben.Authorization.Models.{AuthenticatedUser}
use research_service_workben.Datasets.Models.{
  DataSet, DataSetPermission, PermissionsResponse, ExternalEndpoint, DataSetMountObject,
}
use research_service_workben.Datasets.Plugins.{
  DataSetService, DataSetsStoragePlugin, AddDataSetExternalEndpointRequest,
  EndpointConnectionStrings,
}
use research_service_workben.Datasets.Service.{with_audit-ok, get_data_set}
use research_service_workben.Datasets.Endpoints.{
  generate_mount_object, has_level, asking, no_items, or_empty, finds, new_endpoint,
  get_minimum_access_level, get_external_end_point, connect, store_endpoint, add_for,
  add_data_set_external_endpoint, add_data_set_external_endpoint_for_group, remove_found,
  remove_data_set_external_endpoint,
}

-- The least level among the permissions: read-only where there is one of it, else read-write.
abbrev pub IsLeast : String → List DataSetPermission → Type 0
IsLeast level ps =
    (has_level level ps ≡ true)
    × ((level ≡ "read-only") ⊎ ((level ≡ "read-write") × (has_level "read-only" ps ≡ false)))

get_minimum_access_level-IsLeast :
    (ps : List DataSetPermission) (level : String)
    → get_minimum_access_level ps ≡ ok level
    → IsLeast level ps
unfolding get_minimum_access_level
get_minimum_access_level-IsLeast ps level h = elim (Bool-cases (has_level "read-only" ps)) [
  | inl e ↦
      let same : "read-only" ≡ level = ok_injective (ground (arith, h)) in
      (ap (λ l. has_level l ps) (sym same) ∙ e, inl (sym same))
  | inr e ↦ elim (Bool-cases (has_level "read-write" ps)) [
    | inl f ↦
        let same : "read-write" ≡ level = ok_injective (ground (arith, h)) in
        (ap (λ l. has_level l ps) (sym same) ∙ f, inr (sym same, e))
    | inr f ↦ absurd (ground (arith, h))
  ]
]

module _ {W : Type 0} (s : DataSetService W) where
  -- How an endpoint came to the data set `there`.
  pub record IsAttached (r : AddDataSetExternalEndpointRequest W) (there : DataSet)
      (m : DataSetMountObject) : Type 0 where
    pub asked_in : W
    pub given : PermissionsResponse
    pub answered :
        (s.authz.get_access_permissions
          (asking r.data_set_id r.identity r.identity_type)
          asked_in).0
        ≡ ok given
    pub level : String
    pub least : IsLeast level given.permissions
    pub connections : EndpointConnectionStrings
    pub connected : (v : W) × ((connect s r there level v).0 ≡ ok connections)
    pub endpoint : ExternalEndpoint
    pub stored :
        (v : W) × ((s.db.add_external_endpoint
            (new_endpoint r.external_endpoint_name r.external_role_name there level connections)
            v).0
          ≡ ok endpoint)
    pub listed :
        (v : W) × (d : DataSet) × ((s.db.update_data_set
            (record there {
              external_endpoints = some (or_empty there.external_endpoints ++ endpoint.id ∷ []);
            })
            v).0
          ≡ ok d)
    pub returned : m ≡ generate_mount_object endpoint

  add_for-IsAttached :
      (r : AddDataSetExternalEndpointRequest W) (d : DataSet) (given : PermissionsResponse)
      (v w : W) (m : DataSetMountObject)
      → (s.authz.get_access_permissions (asking r.data_set_id r.identity r.identity_type) v).0
        ≡ ok given
      → (add_for s r d given.permissions w).0 ≡ ok m
      → IsAttached r d m
  add_for-IsAttached r d given v w m answered h =
      let ps = given.permissions in
      let go_on = λ (level : String). connect s r d level >>= store_endpoint s r d level in
      let least = lift {W = W} (get_minimum_access_level ps) in
      let (some_given, h1) =
        throw_if-bind-ok (no_items ps) Error.not_authorized (least >>= go_on) w h in
      let (level, found, h2) = bind-ok least go_on w h1 in
      let (c, connected, h3) = bind-ok (connect s r d level) (store_endpoint s r d level) w h2 in
      let w1 = (connect s r d level w).1 in
      let store =
        s.db.add_external_endpoint
          (new_endpoint r.external_endpoint_name r.external_role_name d level c) in
      let list = λ (e : ExternalEndpoint).
        s.db.update_data_set
          (record d { external_endpoints = some (or_empty d.external_endpoints ++ e.id ∷ []) }) in
      let (e, stored, h4) = bind-ok store (λ e. list e >> pure (generate_mount_object e)) w1 h3 in
      let w2 = (store w1).1 in
      let (d', listed, h5) = bind-ok (list e) (λ _. pure {W = W} (generate_mount_object e)) w2 h4 in
      record {
        asked_in = v;
        given = given;
        answered = answered;
        level = level;
        least = get_minimum_access_level-IsLeast ps level found;
        connections = c;
        connected = (w, connected);
        endpoint = e;
        stored = (w1, stored);
        listed = (w2, d', listed);
        returned = sym (ok_injective h5);
      }

  add_data_set_external_endpoint-IsAttached :
      (fuel : ℕ) (r : AddDataSetExternalEndpointRequest W) (w : W) (m : DataSetMountObject)
      → (add_data_set_external_endpoint s fuel r w).0 ≡ ok m
      → (there : DataSet) × ((get_data_set s fuel r.data_set_id r.authenticated_user w).0
          ≡ ok there)
        × IsAttached r there m
  unfolding add_data_set_external_endpoint
  add_data_set_external_endpoint-IsAttached fuel r w m h =
      let ask = s.authz.get_access_permissions (asking r.data_set_id r.identity r.identity_type) in
      let read = get_data_set s fuel r.data_set_id r.authenticated_user in
      let (d, there, h1) = bind-ok read (λ d. ask >>= λ a. add_for s r d a.permissions) w h in
      let (given, answered, h2) = bind-ok ask (λ a. add_for s r d a.permissions) (read w).1 h1 in
      (d, there, add_for-IsAttached r d given (read w).1 (ask (read w).1).1 m answered h2)

  -- addDataSetExternalEndpointForGroup returns only if the data set is there and the group was given a
  -- permission on it. The endpoint was then opened in the storage and stored with the least of the levels
  -- that the group has, its id was added to those of the data set, and its mount object is returned.
  pub add_data_set_external_endpoint_for_group-IsAttached :
      (fuel : ℕ) (r : AddDataSetExternalEndpointRequest W) (w : W) {m : DataSetMountObject}
      → (add_data_set_external_endpoint_for_group s fuel r w).0 ≡ ok m
      → (there : DataSet) × ((get_data_set s fuel r.data_set_id r.authenticated_user w).0
          ≡ ok there)
        × IsAttached (record r { identity_type = "GROUP" }) there m
  unfolding add_data_set_external_endpoint_for_group
  add_data_set_external_endpoint_for_group-IsAttached fuel r w {m} h =
      let for_group = record r { identity_type = "GROUP" } in
      add_data_set_external_endpoint-IsAttached fuel for_group w m (
        with_audit-ok s r.authenticated_user "addDataSetExternalEndpointForGroup"
          (add_data_set_external_endpoint s fuel for_group) w h)

  -- removeDataSetExternalEndpoint returns only if the endpoint is one of the data set's own. It was then
  -- removed from the storage, and the data set was stored with all its other endpoints, in their order.
  pub remove_data_set_external_endpoint-ok :
      (fuel : ℕ) (id endpoint_id : String) (storage : DataSetsStoragePlugin W)
      (u : AuthenticatedUser) (w : W)
      → (remove_data_set_external_endpoint s fuel id endpoint_id storage u w).0 ≡ ok tt
      → (d : DataSet) × (e : ExternalEndpoint) × ((get_data_set s fuel id u w).0 ≡ ok d)
        × (finds e.id (or_empty d.external_endpoints) ≡ true)
        × ((v : W) × ((storage.remove_external_endpoint e.name d.aws_account_id v).0 ≡ ok tt))
        × ((v : W) × (d' : DataSet) × ((s.db.update_data_set
                (record d {
                  external_endpoints =
                      some (keep (λ x. not (x == e.id)) (or_empty d.external_endpoints));
                })
                v).0
              ≡ ok d'))
  unfolding remove_data_set_external_endpoint
  remove_data_set_external_endpoint-ok fuel id endpoint_id storage u w h =
      let details = get_external_end_point s id endpoint_id u in
      let body = get_data_set s fuel id u >>= λ d. details >>= remove_found s storage d in
      let inner = with_audit-ok s u "removeDataSetExternalEndpoint" body w h in
      let (d, there, h1) =
        bind-ok (get_data_set s fuel id u) (λ d. details >>= remove_found s storage d) w inner in
      let (e, found, h2) =
        bind-ok details (remove_found s storage d) (get_data_set s fuel id u w).1 h1 in
      let w1 = (details (get_data_set s fuel id u w).1).1 in
      let close = storage.remove_external_endpoint e.name d.aws_account_id in
      let update = s.db.update_data_set (record d {
        external_endpoints = some (keep (λ x. not (x == e.id)) (or_empty d.external_endpoints));
      }) in
      let missing = not (finds e.id (or_empty d.external_endpoints)) in
      let (own, h3) =
        throw_if-bind-ok missing Error.endpoint_not_found (close >> (update >> pure tt)) w1 h2 in
      let (done, closed, h4) = bind-ok close (λ _. update >> pure tt) w1 h3 in
      let (d', updated, same) = bind-ok update (λ _. pure {W = W} tt) (close w1).1 h4 in
      (d, e, there, ground (arith, own), (w1, closed), ((close w1).1, d', updated))
