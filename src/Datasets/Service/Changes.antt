-- ===== src/Datasets/Service/Changes.antt =====
-- What must hold before a data set is added or removed.
use research_service_workben.Base.{
  ℕ, String, true, false, not, some, List, ◌≡◌, ap, ◌∙◌, ok, arith, bind-ok, throw_if-bind-ok,
  ok_injective, both-ok_parts, sym, Async, Error, ◌>>=◌, ◌>>◌, both, throw_if, pure,
}
use research_service_workben.Authorization.Models.{AuthenticatedUser}
use research_service_workben.Datasets.Models.{DataSet, DataSetPermission, PermissionsResponse}
use research_service_workben.Datasets.Plugins.{DataSetService, CreateProvisionDatasetRequest}
use research_service_workben.Datasets.Service.{
  with_audit-ok, has_items, get_data_set, remove_unused, remove_data_set, same_text,
  lacks_owner_type, provisioned, adding, update_new_data_set_permissions, add_new, provision,
  provision_data_set,
}

module _ {W : Type 0} (s : DataSetService W) where
  -- What was found out before the data set was removed, and what is returned of it.
  pub record IsRemoved (fuel : ℕ) (id : String) (check : String → Async W (Unit {0}))
      (u : AuthenticatedUser) (w : W) (d : DataSet) : Type 0 where
    pub checked : (check id w).0 ≡ ok tt
    pub there : DataSet
    pub found : (get_data_set s fuel id u (check id w).1).0 ≡ ok there
    pub unused : has_items there.external_endpoints ≡ false
    pub removed : PermissionsResponse
    pub permissions_removed :
        (s.authz.remove_all_access_permissions id u (get_data_set s fuel id u (check id w).1).1).0
        ≡ ok removed
    pub returned : d ≡ record there { permissions = some removed.permissions }

  remove_unused-ok :
      (id : String) (u : AuthenticatedUser) (d : DataSet) (w : W) {d' : DataSet}
      → (remove_unused s id u d w).0 ≡ ok d'
      → (has_items d.external_endpoints ≡ false)
        × (r : PermissionsResponse) × ((s.authz.remove_all_access_permissions id u w).0 ≡ ok r)
        × (d' ≡ record d { permissions = some r.permissions })
  remove_unused-ok id u d w h =
      let authz = s.authz.remove_all_access_permissions id u in
      let drop = both authz (s.db.remove_data_set id) in
      let finish = λ (r : PermissionsResponse × Unit {0}).
        pure {W = W} (record d { permissions = some r.0.permissions }) in
      let (unused, rest) =
        throw_if-bind-ok (has_items d.external_endpoints) Error.has_endpoint (drop >>= finish) w
          h in
      let (r, dropped, same) = bind-ok drop finish w rest in
      (
        unused,
        r.0,
        (both-ok_parts authz (s.db.remove_data_set id) w dropped).0,
        sym (ok_injective same),
      )

  -- removeDataSet returns only if the caller's check passed, the data set was there and had no external
  -- endpoints, and its permissions were removed, which the returned data set shows.
  pub remove_data_set-IsRemoved :
      (fuel : ℕ) (id : String) (check : String → Async W (Unit {0})) (u : AuthenticatedUser) (w : W)
      {d : DataSet}
      → (remove_data_set s fuel id check u w).0 ≡ ok d
      → IsRemoved fuel id check u w d
  unfolding remove_data_set
  remove_data_set-IsRemoved fuel id check u w h =
      let body = check id >> (get_data_set s fuel id u >>= remove_unused s id u) in
      let inner = with_audit-ok s u "removeDataSet" body w h in
      let (done, checked, later) =
        bind-ok (check id) (λ _. get_data_set s fuel id u >>= remove_unused s id u) w inner in
      let (there, found, last) =
        bind-ok (get_data_set s fuel id u) (remove_unused s id u) (check id w).1 later in
      let (unused, removed, gone, returned) =
        remove_unused-ok id u there (get_data_set s fuel id u (check id w).1).1 last in
      record {
        checked = checked;
        there = there;
        found = found;
        unused = unused;
        removed = removed;
        permissions_removed = gone;
        returned = returned;
      }

  pub record IsProvisioned (r : CreateProvisionDatasetRequest W) (d : DataSet) : Type 0 where
    pub owner_typed : lacks_owner_type r ≡ false
    pub main_bucket : same_text (some r.storage_name) s.s3_datasets_bucket_name ≡ true
    pub main_account : same_text r.aws_account_id s.main_acct_id ≡ true
    pub start : W
    pub stored : DataSet
    pub added : (s.db.add_data_set (provisioned r) start).0 ≡ ok stored
    pub response : PermissionsResponse
    pub granted :
        (s.authz.add_access_permission
          (adding stored.id r)
          (s.db.add_data_set (provisioned r) start).1).0
        ≡ ok response
    pub returned : d ≡ record stored { permissions = some response.permissions }

  add_new-ok :
      (r : CreateProvisionDatasetRequest W) (w : W) {d : DataSet}
      → (add_new s r w).0 ≡ ok d
      → (stored : DataSet) × ((s.db.add_data_set (provisioned r) w).0 ≡ ok stored)
        × (response : PermissionsResponse) × ((s.authz.add_access_permission
              (adding stored.id r)
              (s.db.add_data_set (provisioned r) w).1).0
            ≡ ok response)
        × (d ≡ record stored { permissions = some response.permissions })
  unfolding update_new_data_set_permissions
  add_new-ok r w h =
      let grant = λ (d : DataSet). update_new_data_set_permissions s d.id r in
      let finish =
        λ (d : DataSet) (ps : List DataSetPermission). pure (record d { permissions = some ps }) in
      let (stored, added, rest) =
        bind-ok (s.db.add_data_set (provisioned r)) (λ d. grant d >>= finish d) w h in
      let w1 = (s.db.add_data_set (provisioned r) w).1 in
      let (ps, granted, same) = bind-ok (grant stored) (finish stored) w1 rest in
      let (response, given, same') =
        bind-ok (s.authz.add_access_permission (adding stored.id r)) (λ p. pure p.permissions) w1
          granted in
      (
        stored,
        added,
        response,
        given,
        sym (ok_injective same)
            ∙ ap (λ p. record stored { permissions = some p }) (sym (ok_injective same')),
      )

  -- provisionDataSet returns only for a request whose owner, if any, comes with a type, and which names
  -- the main bucket and the main account; what it returns is the data set that was stored, with the
  -- permissions that the authorization plugin gave for those that the request sets out with.
  pub provision_data_set-IsProvisioned :
      (r : CreateProvisionDatasetRequest W) (w : W) {d : DataSet}
      → (provision_data_set s r w).0 ≡ ok d
      → IsProvisioned r d
  unfolding provision_data_set
  provision_data_set-IsProvisioned r w h =
      let create = r.storage_provider.create_storage r.storage_name r.path in
      let store = create >> add_new s r in
      let right_account = not (same_text r.aws_account_id s.main_acct_id) in
      let right_bucket = not (same_text (some r.storage_name) s.s3_datasets_bucket_name) in
      let in_account = throw_if right_account Error.account_not_found >> store in
      let inner = with_audit-ok s r.authenticated_user "provisionDataSet" (provision s r) w h in
      let (typed, h1) =
        throw_if-bind-ok (lacks_owner_type r) Error.invalid_parameter
          (throw_if right_bucket Error.storage_not_found >> in_account) w inner in
      let (bucket, h2) = throw_if-bind-ok right_bucket Error.storage_not_found in_account w h1 in
      let (account, h3) = throw_if-bind-ok right_account Error.account_not_found store w h2 in
      let (path, made, h4) = bind-ok create (λ _. add_new s r) w h3 in
      let (stored, added, response, granted, returned) = add_new-ok r (create w).1 h4 in
      record {
        owner_typed = typed;
        main_bucket = ground (arith, bucket);
        main_account = ground (arith, account);
        start = (create w).1;
        stored = stored;
        added = added;
        response = response;
        granted = granted;
        returned = returned;
      }
