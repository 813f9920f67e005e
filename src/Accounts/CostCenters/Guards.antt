-- ===== src/Accounts/CostCenters/Guards.antt =====
-- When a cost center is created.
use research_service_workben.Base.{
  String, false, not, Option, ◌≡◌, inl, inr, ok, bind-ok, throw_if-bind-ok, Result-split, Error,
  throw_if, lift, ◌>>◌, ◌==◌, eq_iff, arith,
}
use research_service_workben.Accounts.Projects.{Item}
use research_service_workben.Accounts.HostingModels.{Account, FullCostCenter}
use research_service_workben.Accounts.HostingAccounts.{get_account}
use research_service_workben.Accounts.CostCenters.{
  CenterStore, CreateCostCenterRequest, account_for, center_key, new_center, returned_center,
  store_center, create,
}

module _ {W : Type 0} (s : CenterStore W) where
  account_for-ok :
      (id : String) (w : W) {a : Account}
      → (account_for s id w).0 ≡ ok a
      → (get_account s.accounts id false w).0 ≡ ok a
  account_for-ok id w h = elim (Result-split (get_account s.accounts id false w).0) [
    | inl (b, e) ↦ ground arith
    | inr (inl (x, e)) ↦ absurd (ground arith)
    | inr (inr e) ↦ absurd (ground arith)
  ]

  -- A cost center is created only for an account that is there and is current, from whose attributes its
  -- one write takes over the roles, the network and the keys.
  pub create-current :
      (id now : String) (r : CreateCostCenterRequest) (w : W) {c : FullCostCenter}
      → (create s id now r w).0 ≡ ok c
      → (a : Account) × ((get_account s.accounts r.account_id false w).0 ≡ ok a)
        × (a.status ≡ "CURRENT")
        × ((v : W) × (item : Option Item) × ((s.accounts.update_item
                (center_key id)
                (center_key id)
                (new_center id now r a)
                v).0
              ≡ ok item)
            × (returned_center s item ≡ ok c))
  unfolding create
  create-current id now r w h =
      let read = account_for s r.account_id in
      let store = λ (a : Account). store_center s id (new_center id now r a) in
      let outdated = λ (a : Account). not (a.status == "CURRENT") in
      let (a, found, h1) =
        bind-ok read (λ a. throw_if (outdated a) Error.invalid_account_state >> store a) w h in
      let (current, h2) =
        throw_if-bind-ok (outdated a) Error.invalid_account_state (store a) (read w).1 h1 in
      let (item, written, returned) =
        bind-ok (s.accounts.update_item (center_key id) (center_key id) (new_center id now r a))
          (λ item. lift {W = W} (returned_center s item)) (read w).1 h2 in
      (
        a,
        account_for-ok r.account_id w found,
        (eq_iff a.status "CURRENT").0 (ground (arith, current)),
        ((read w).1, item, written, returned),
      )
