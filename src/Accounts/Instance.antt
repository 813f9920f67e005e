-- ===== src/Accounts/Instance.antt =====
-- The project service over the cost center service: workbench-core/accounts/src/services/projectService.ts
-- gets a CostCenterService in its constructor.
use research_service_workben.Base.{
  String, false, Option, none, some, [], ◌≡◌, refl, ap, ◌∙◌, sym, inl, inr, ◌⊎◌, ok, is_ok, pure,
  lift, ◌>>=◌, bind-ok, ok_injective, Result-split, arith,
}
use research_service_workben.Accounts.HostingModels.{FullCostCenter}
use research_service_workben.Accounts.CostCenters.{
  CenterStore, center_key, found_center, map_ddb_item_to_cost_center, get_cost_center,
}
use research_service_workben.Accounts.Listing.{project_key}
use research_service_workben.Accounts.Projects.{
  Item, CostCenter, ProjectStore, CreateProjectRequest, new_project, map_to_ddb_item_from_project,
  create_project,
}
use research_service_workben.Accounts.Projects.Guards.{IsReadOnly, create_project-checked}

-- What the project service uses of a cost center.
abbrev pub as_center : FullCostCenter → CostCenter
as_center f = record {
  id = f.id;
  status = f.status;
  subnet_id = f.subnet_id;
  vpc_id = f.vpc_id;
  env_mgmt_role_arn = f.env_mgmt_role_arn;
  external_id = f.external_id;
  encryption_key_arn = f.encryption_key_arn;
  environment_instance_files = f.environment_instance_files;
  hosting_account_handler_role_arn = f.hosting_account_handler_role_arn;
  aws_account_id = f.aws_account_id;
  account_id = f.account_id;
}

abbrev pub with_cost_centers : {W : Type 0} → CenterStore W → ProjectStore W → ProjectStore W
with_cost_centers c s = record s {
  get_cost_center = λ id. (do f ← get_cost_center c id; pure (as_center f));
}

module _ {W : Type 0} (c : CenterStore W) (s : ProjectStore W) (reads : IsReadOnly s)
    (center_reads : (pk sk : String) (w : W) → (c.accounts.get_item pk sk w).1 ≡ w) where
  get_cost_center-same : (id : String) (w : W) → (get_cost_center c id w).1 ≡ w
  unfolding get_cost_center
  get_cost_center-same id w =
      elim (Result-split (c.accounts.get_item (center_key id) (center_key id) w).0) [
        | inl (item, e) ↦ ground (arith, center_reads (center_key id) (center_key id) w)
        | inr (inl (x, e)) ↦ ground (arith, center_reads (center_key id) (center_key id) w)
        | inr (inr e) ↦ ground (arith, center_reads (center_key id) (center_key id) w)
      ]

  as_center-same : (id : String) (w : W) → ((with_cost_centers c s).get_cost_center id w).1 ≡ w
  as_center-same id w = elim (Result-split (get_cost_center c id w).0) [
    | inl (f, e) ↦ ground (arith, get_cost_center-same id w)
    | inr (inl (x, e)) ↦ ground (arith, get_cost_center-same id w)
    | inr (inr e) ↦ ground (arith, get_cost_center-same id w)
  ]

  with_cost_centers-IsReadOnly : IsReadOnly (with_cost_centers c s)
  with_cost_centers-IsReadOnly = record {
    get_item = reads.get_item;
    projects_by_name = reads.projects_by_name;
    get_cost_center = as_center-same;
  }

  found_center-there :
      (found : Option Item) {f : FullCostCenter}
      → found_center c found ≡ ok f
      → (item : Item) × (found ≡ some item) × (map_ddb_item_to_cost_center c item ≡ ok f)
  found_center-there none h = absurd (ground arith)
  found_center-there (some item) h = (item, refl, h)

  get_cost_center-stored :
      (id : String) (w : W) {f : FullCostCenter}
      → (get_cost_center c id w).0 ≡ ok f
      → (item : Item) × ((c.accounts.get_item (center_key id) (center_key id) w).0 ≡ ok (some item))
        × (map_ddb_item_to_cost_center c item ≡ ok f)
  unfolding get_cost_center
  get_cost_center-stored id w h =
      let read = c.accounts.get_item (center_key id) (center_key id) in
      let (found, there, parsed) =
        bind-ok read (λ found. lift {W = W} (found_center c found)) w h in
      let (item, same, mapped) = found_center-there found parsed in
      (item, there ∙ ap ok same, mapped)

  -- The world after the write of a new project of a cost center.
  abbrev written : (id now : String) → CreateProjectRequest → W → CostCenter → W
  written id now params w center =
      (s.update_item (project_key id)
        (map_to_ddb_item_from_project (new_project id now params center)) w).1

  -- With the cost center service over the table, and reads changing nothing, createProject either writes
  -- nothing and does not return; or no project has the name, the table has an item for the cost center
  -- that is read as an available one, and the one write stores the new project with the account and the
  -- roles of that cost center.
  pub create_project-get_cost_center :
      (id now : String) (params : CreateProjectRequest) (w : W)
      → ((is_ok (create_project (with_cost_centers c s) id now params w).0 ≡ false)
          × ((create_project (with_cost_centers c s) id now params w).1 ≡ w))
        ⊎ ((item : Item) × (f : FullCostCenter) × ((s.projects_by_name params.name w).0 ≡ ok [])
            × ((c.accounts.get_item
                  (center_key params.cost_center_id)
                  (center_key params.cost_center_id)
                  w).0
                ≡ ok (some item))
            × (map_ddb_item_to_cost_center c item ≡ ok f)
            × (f.status ≡ "AVAILABLE")
            × ((create_project (with_cost_centers c s) id now params w).1
                ≡ (s.update_item
                    (project_key id)
                    (map_to_ddb_item_from_project (new_project id now params (as_center f)))
                    w).1))
  create_project-get_cost_center id now params w =
      elim (create_project-checked (with_cost_centers c s) with_cost_centers-IsReadOnly id now
        params w) [
          | inl refused ↦ inl refused
          | inr (center, free, there, available, stored) ↦
              let (f, found, same) =
                bind-ok (get_cost_center c params.cost_center_id) (λ f. pure {W = W} (as_center f))
                  w there in
              let (item, kept, mapped) = get_cost_center-stored params.cost_center_id w found in
              let e : as_center f ≡ center = ok_injective same in
              inr (
                item,
                f,
                free,
                kept,
                mapped,
                ap (λ x. x.status) e ∙ available,
                stored ∙ ap (written id now params w) (sym e),
              )
        ]
