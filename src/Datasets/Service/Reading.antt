-- ===== src/Datasets/Service/Reading.antt =====
-- The loop with which getDataSet reads the pages of permissions.
use research_service_workben.Base.{
  ℕ, suc, zero, String, Option, none, some, List, ◌++◌, ◌≡◌, ok, hang, arith, truthy, Option-cases,
  inl, inr, Result, Result-split, both,
}
use research_service_workben.Audit.{Metadata, audited}
use research_service_workben.Authorization.Models.{AuthenticatedUser}
use research_service_workben.Datasets.Models.{DataSet, DataSetPermission, PermissionsResponse}
use research_service_workben.Datasets.Plugins.{DataSetService}
use research_service_workben.Datasets.Service.{
  with_audit, read_more, with_permissions, get_data_set,
}

-- A service whose data set `id` is there, and whose permissions are served in the pages `page`;
-- reading and the audit change nothing.
pub record IsServed {W : Type 0} (s : DataSetService W) (id : String) (d : DataSet)
    (page : Option String → PermissionsResponse) : Type 0 where
  pub metadata : (w : W) → s.db.get_data_set_metadata id w ≡ (ok d, w)
  pub permissions :
      (t : Option String) (w : W)
      → s.authz.get_all_data_set_access_permissions id t none w ≡ (ok (page t), w)
  pub audit : (m : Metadata) (w : W) → s.write m w ≡ (ok tt, w)

-- What getDataSet makes of the first page of permissions and of the one that its token names.
abbrev pub outcome : DataSet → PermissionsResponse → PermissionsResponse → Result DataSet
outcome d first second = elim (truthy first.page_token) [
  | none ↦ ok (record d { permissions = some first.permissions })
  | some t ↦ elim (truthy second.page_token) [
    | none ↦ ok (record d { permissions = some (first.permissions ++ second.permissions) })
    | some t' ↦ hang
  ]
]

module _ {W : Type 0} (s : DataSetService W) (id : String) (d : DataSet)
    (page : Option String → PermissionsResponse) (served : IsServed s id d page) (w : W) where
  -- A loop that comes to the same page again and again.
  read_more-hang :
      (f : ℕ) (first next : Option String) (acc : List DataSetPermission) (t t' : String)
      → truthy next ≡ some t
      → truthy (page first).page_token ≡ some t'
      → read_more s f id first next acc w ≡ (hang, w)
  unfolding read_more
  read_more-hang zero first next acc t t' e e' = ground arith
  read_more-hang (suc f) first next acc t t' e e' =
      let later =
        read_more-hang f first (page first).page_token (acc ++ (page first).permissions) t' t' e'
          e' in
      ground (arith, served.permissions first w, later)

  read_more-done :
      (f : ℕ) (first next : Option String) (acc : List DataSetPermission)
      → truthy next ≡ none
      → read_more s f id first next acc w ≡ (ok acc, w)
  unfolding read_more
  read_more-done zero first next acc e = ground arith
  read_more-done (suc f) first next acc e = ground arith

  with_permissions-outcome :
      (fuel : ℕ) (first : PermissionsResponse)
      → with_permissions s (suc fuel) id (d, first) w ≡ (outcome d first (page first.page_token), w)
  unfolding read_more
  with_permissions-outcome fuel first =
      let second = page first.page_token in
      let both_pages = first.permissions ++ second.permissions in
      elim (Option-cases (truthy first.page_token)) [
        | inl e ↦ ground arith
        | inr (t, e) ↦ elim (Option-cases (truthy second.page_token)) [
          | inl e' ↦
              let last = read_more-done fuel first.page_token second.page_token both_pages e' in
              ground (arith, served.permissions first.page_token w, last)
          | inr (t', e') ↦
              let again =
                read_more-hang fuel first.page_token second.page_token both_pages t' t' e' e' in
              ground (arith, served.permissions first.page_token w, again)
        ]
      ]

  found :
      both
        (s.db.get_data_set_metadata id)
        (s.authz.get_all_data_set_access_permissions id none none)
        w
      ≡ (ok (d, page none), w)
  found = ground (arith, served.metadata w, served.permissions none w)

  -- With the data set there, and audit entries written, getDataSet returns it with the permissions of
  -- the first page, or of the first and the second where there are two; where the second page has a
  -- token as well, it does not come back, whatever the fuel.
  pub get_data_set-outcome :
      (fuel : ℕ) (u : AuthenticatedUser)
      → get_data_set s (suc fuel) id u w ≡ (outcome d (page none) (page (page none).page_token), w)
  unfolding get_data_set with_audit audited
  get_data_set-outcome fuel u =
      let m : Metadata = record { actor = u; action = "getDataSet"; status_code = none } in
      elim (Result-split (outcome d (page none) (page (page none).page_token))) [
        | inl (a, e) ↦
            ground (arith, found, with_permissions-outcome fuel (page none), served.audit m w)
        | inr (inl (x, e)) ↦
            ground (arith, found, with_permissions-outcome fuel (page none), served.audit m w)
        | inr (inr e) ↦
            ground (arith, found, with_permissions-outcome fuel (page none), served.audit m w)
      ]
