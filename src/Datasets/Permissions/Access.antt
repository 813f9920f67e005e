-- ===== src/Datasets/Permissions/Access.antt =====
-- What the data set plugin's check asks of the dynamic authorization service.
use research_service_workben.Base.{
  ℕ, String, Bool, true, false, ◌≡◌, refl, ◌⊎◌, inl, inr, ok, bind-ok, ◌==◌,
}
use research_service_workben.Authorization.Models.{AuthenticatedUser, read, update}
use research_service_workben.Authorization.Service.{Plugins}
use research_service_workben.Authorization.Dynamic.{is_authorized_on_subject}
use research_service_workben.Authorization.Dynamic.Access.{
  HasAccess, is_authorized_on_subject-HasAccess,
}
use research_service_workben.Datasets.Permissions.{
  on_data_set, check_update, is_authorized_on_data_set,
}

module _ {W : Type 0} (s : Plugins W) (fuel : ℕ) (id : String) (u : AuthenticatedUser) where
  check_update-HasAccess :
      (b : Bool) (w : W)
      → (check_update s fuel id u b w).0 ≡ ok tt
      → (b ≡ false) ⊎ HasAccess s fuel u (on_data_set id update)
  check_update-HasAccess false w h = inl refl
  check_update-HasAccess true w h =
      inr (is_authorized_on_subject-HasAccess s fuel u (on_data_set id update) w h)

  -- A user whom `isAuthorizedOnDataSet` lets through may read the data set, and unless the level
  -- asked for is another than read-write, may update it: by an ALLOW that no DENY takes away.
  pub is_authorized_on_data_set-HasAccess :
      (level : String) (w : W)
      → (is_authorized_on_data_set s fuel id level u w).0 ≡ ok tt
      → HasAccess s fuel u (on_data_set id read)
        × (((level == "read-write") ≡ false) ⊎ HasAccess s fuel u (on_data_set id update))
  unfolding is_authorized_on_data_set
  is_authorized_on_data_set-HasAccess level w h =
      let reading = is_authorized_on_subject s fuel u (on_data_set id read) in
      let (done, may_read, rest) =
        bind-ok reading (λ _. check_update s fuel id u (level == "read-write")) w h in
      (
        is_authorized_on_subject-HasAccess s fuel u (on_data_set id read) w may_read,
        check_update-HasAccess (level == "read-write") (reading w).1 rest,
      )
