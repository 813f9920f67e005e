-- ===== src/Accounts/Projects/Guards.antt =====
-- What must hold before a project is written.
use research_service_workben.Base.{
  String, false, List, [], ◌∷◌, ◌≡◌, ◌∙◌, ◌⊎◌, inl, inr, ok, is_ok, both_same, both-ok, both-fails,
  bind-fails, bind-runs, Async, arith, Result-split, Bool-cases, ◌==◌, eq_iff, both,
}
use research_service_workben.Accounts.Models.{Project}
use research_service_workben.Accounts.Listing.{project_key}
use research_service_workben.Accounts.Projects.{
  Item, CostCenter, ProjectStore, CreateProjectRequest, map_to_ddb_item_from_project, deleted_item,
  new_project, get_project, is_project_name_in_use, get_cost_center, store_new, create_project,
  store_deleted, soft_delete_project,
}

-- Reading changes nothing.
pub record IsReadOnly {W : Type 0} (s : ProjectStore W) : Type 0 where
  pub get_item : (k : String) (w : W) → (s.get_item k w).1 ≡ w
  pub projects_by_name : (n : String) (w : W) → (s.projects_by_name n w).1 ≡ w
  pub get_cost_center : (id : String) (w : W) → (s.get_cost_center id w).1 ≡ w

module _ {W : Type 0} (s : ProjectStore W) (reads : IsReadOnly s) where
  pub get_project_same : (id : String) (w : W) → (get_project s id w).1 ≡ w
  unfolding get_project
  get_project_same id w = ground (arith, reads.get_item (project_key id) w)

  store_deleted_world :
      (id : String) (w : W)
      → (store_deleted s id w).1 ≡ (s.update_item (project_key id) deleted_item w).1
  store_deleted_world id w = ground arith

  -- Either the project is not touched and the call does not return; or the callback found no
  -- dependencies, the project was there, and the one write marks it as deleted.
  pub soft_delete_project-checked :
      (id : String) (check : String → Async W (Unit {0})) (w : W)
      → ((is_ok (soft_delete_project s id check w).0 ≡ false)
          × ((soft_delete_project s id check w).1 ≡ (check id w).1))
        ⊎ ((p : Project) × ((check id w).0 ≡ ok tt)
            × ((get_project s id (check id w).1).0 ≡ ok p)
            × ((soft_delete_project s id check w).1
                ≡ (s.update_item (project_key id) deleted_item (check id w).1).1))
  unfolding soft_delete_project
  soft_delete_project-checked id check w =
      let w1 = (check id w).1 in
      elim (Result-split (check id w).0) [
        | inl (u, e) ↦ elim (Result-split (get_project s id w1).0) [
          | inl (p, f) ↦
              inr (p, e, f, ground (arith, get_project_same id w1, store_deleted_world id w1))
          | inr (inl (x, f)) ↦ inl (ground arith, ground (arith, get_project_same id w1))
          | inr (inr f) ↦ inl (ground arith, ground (arith, get_project_same id w1))
        ]
        | inr (inl (x, e)) ↦ inl (ground arith, ground arith)
        | inr (inr e) ↦ inl (ground arith, ground arith)
      ]

  pub name_free :
      (name : String) (w : W)
      → ((is_project_name_in_use s name w).1 ≡ w)
        × ((is_ok (is_project_name_in_use s name w).0 ≡ false)
            ⊎ (((is_project_name_in_use s name w).0 ≡ ok tt)
                × ((s.projects_by_name name w).0 ≡ ok [])))
  unfolding is_project_name_in_use
  name_free name w = elim (Result-split (s.projects_by_name name w).0) [
    | inl (items, e) ↦ (ground (arith, reads.projects_by_name name w), go items e)
    | inr (inl (x, e)) ↦ (ground (arith, reads.projects_by_name name w), inl (ground arith))
    | inr (inr e) ↦ (ground (arith, reads.projects_by_name name w), inl (ground arith))
  ]
    where
      go :
          (items : List Item)
          → (s.projects_by_name name w).0 ≡ ok items
          → (is_ok (is_project_name_in_use s name w).0 ≡ false)
            ⊎ (((is_project_name_in_use s name w).0 ≡ ok tt)
                × ((s.projects_by_name name w).0 ≡ ok []))
      go [] e = inr (ground arith, e)
      go (x ∷ xs) e = inl (ground arith)

  center_there :
      (id : String) (w : W)
      → ((get_cost_center s id w).1 ≡ w)
        × ((is_ok (get_cost_center s id w).0 ≡ false)
            ⊎ ((c : CostCenter) × ((get_cost_center s id w).0 ≡ ok c)
                × ((s.get_cost_center id w).0 ≡ ok c)
                × (c.status ≡ "AVAILABLE")))
  unfolding get_cost_center
  center_there id w = elim (Result-split (s.get_cost_center id w).0) [
    | inl (c, e) ↦ elim (Bool-cases (c.status == "AVAILABLE")) [
      | inl h ↦ (
        ground (arith, reads.get_cost_center id w),
        inr (c, ground arith, e, (eq_iff c.status "AVAILABLE").0 h),
      )
      | inr h ↦ (ground (arith, reads.get_cost_center id w), inl (ground arith))
    ]
    | inr (inl (x, e)) ↦ (ground (arith, reads.get_cost_center id w), inl (ground arith))
    | inr (inr e) ↦ (ground (arith, reads.get_cost_center id w), inl (ground arith))
  ]

  store_new_world :
      (p : Project) (w : W)
      → (store_new s p w).1
        ≡ (s.update_item (project_key p.id) (map_to_ddb_item_from_project p) w).1
  store_new_world p w = ground arith

  -- Either nothing is written and the call does not return; or no project has the name, the cost
  -- center is there and available, and the one write stores the new project.
  pub create_project-checked :
      (id now : String) (params : CreateProjectRequest) (w : W)
      → ((is_ok (create_project s id now params w).0 ≡ false)
          × ((create_project s id now params w).1 ≡ w))
        ⊎ ((c : CostCenter) × ((s.projects_by_name params.name w).0 ≡ ok [])
            × ((s.get_cost_center params.cost_center_id w).0 ≡ ok c)
            × (c.status ≡ "AVAILABLE")
            × ((create_project s id now params w).1
                ≡ (s.update_item
                    (project_key id)
                    (map_to_ddb_item_from_project (new_project id now params c))
                    w).1))
  unfolding create_project
  create_project-checked id now params w =
      let (named_same, named) = name_free params.name w in
      let (center_same, center) = center_there params.cost_center_id w in
      let name = is_project_name_in_use s params.name in
      let cost = get_cost_center s params.cost_center_id in
      let checks = both name cost in
      let store = λ (cs : Unit {0} × CostCenter). store_new s (new_project id now params cs.1) in
      let unwritten : (is_ok (name w).0 ≡ false) ⊎ (is_ok (cost w).0 ≡ false)
          → (is_ok (create_project s id now params w).0 ≡ false)
            × ((create_project s id now params w).1 ≡ w) =
        λ h.
          let fails = bind-fails checks store w (both-fails name cost w named_same center_same h) in
          (fails.0, fails.1 ∙ both_same name cost w named_same center_same) in
      elim named [
        | inl used ↦ inl (unwritten (inl used))
        | inr (free, none_named) ↦ elim center [
          | inl absent ↦ inl (unwritten (inr absent))
          | inr (c, e, there, available) ↦ inr (
            c,
            none_named,
            there,
            available,
            bind-runs checks store w (both-ok name cost w named_same center_same free e)
                  (both_same name cost w named_same center_same)
                ∙ store_new_world (new_project id now params c) w,
          )
        ]
      ]
