-- ===== src/Accounts/Projects/Updates.antt =====
-- What must hold before a project is changed.
use mathlib.Core.Path.{subst}
use research_service_workben.Base.{
  is_ok, bind-fails, bind-runs, both_same, both-ok, both-fails, String, Bool, false, not, ◌&&◌,
  Option, none, some, [], ◌++◌, ◌≡◌, refl, sym, ◌∙◌, ◌⊎◌, inl, inr, ok, Async, arith, Result-split,
  Bool-cases, ◌==◌, ◌>>◌, both, pure, if◌then◌else◌,
}
use research_service_workben.Accounts.Models.{Project}
use research_service_workben.Accounts.Listing.{project_key}
use research_service_workben.Accounts.Projects.{
  ProjectStore, UpdatedValues, text_present, attribute_of, get_project, is_project_name_in_use,
  check_update, store_update, update_project,
}
use research_service_workben.Accounts.Projects.Guards.{IsReadOnly, get_project_same, name_free}

module _ {W : Type 0} (s : ProjectStore W) (reads : IsReadOnly s) where
  -- The new name is none, or no project has it.
  abbrev pub IsFree : Option String → W → Type 0
  IsFree name w =
      (text_present name ≡ false)
      ⊎ ((new_name : String) × (name ≡ some new_name) × ((s.projects_by_name new_name w).0 ≡ ok []))

  abbrev Checks : Async W (Unit {0}) → String → Option String → W → Type 0
  Checks m id name w =
      ((m w).1 ≡ w)
      × ((is_ok (m w).0 ≡ false)
          ⊎ (((m w).0 ≡ ok tt) × ((p : Project) × ((get_project s id w).0 ≡ ok p) × IsFree name w)))

  there-Checks :
      (id : String) (name : Option String) (w : W)
      → IsFree name w
      → Checks (get_project s id >> pure tt) id name w
  there-Checks id name w free =
      let same = get_project_same s reads id w in
      elim (Result-split (get_project s id w).0) [
        | inl (p, f) ↦ (ground (arith, same), inr (ground arith, (p, f, free)))
        | inr (inl (x, f)) ↦ (ground (arith, same), inl (ground arith))
        | inr (inr f) ↦ (ground (arith, same), inl (ground arith))
      ]

  free-Checks :
      (id name : String) (w : W)
      → Checks (both (is_project_name_in_use s name) (get_project s id) >> pure tt) id (some name) w
  free-Checks id name w =
      let (name_same, named) = name_free s reads name w in
      let there_same = get_project_same s reads id w in
      let used = is_project_name_in_use s name in
      let there = get_project s id in
      let same = both_same used there w name_same there_same in
      let failing : (is_ok (used w).0 ≡ false) ⊎ (is_ok (there w).0 ≡ false)
          → Checks (both used there >> pure tt) id (some name) w =
        λ h.
          let fails =
            bind-fails (both used there) (λ _. pure tt) w
              (both-fails used there w name_same there_same h) in
          (fails.1 ∙ same, inl fails.0) in
      elim named [
        | inl taken ↦ failing (inl taken)
        | inr (free, none_named) ↦ elim (Result-split (there w).0) [
          | inl (p, f) ↦
              let done = both-ok used there w name_same there_same free f in
              (
                bind-runs (both used there) (λ _. pure tt) w done same,
                inr (ground (arith, done), (p, f, inr (name, refl, none_named))),
              )
          | inr (inl (x, f)) ↦ failing (inr (ground arith))
          | inr (inr f) ↦ failing (inr (ground arith))
        ]
      ]

  check_update-Checks :
      (id : String) (name : Option String) (w : W) → Checks (check_update s id name) id name w
  check_update-Checks id none w = there-Checks id none w (inl refl)
  check_update-Checks id (some name) w = elim (Bool-cases (name == "")) [
    | inl e ↦ chosen (sym e) (there-Checks id (some name) w (inl (rw e refl)))
    | inr e ↦ chosen (sym e) (free-Checks id name w)
  ]
    where
      choose : Bool → Async W (Unit {0})
      choose b =
          if b
          then get_project s id >> pure tt
          else both (is_project_name_in_use s name) (get_project s id) >> pure tt

      chosen :
          {b : Bool}
          → b ≡ (name == "")
          → Checks (choose b) id (some name) w
          → Checks (choose (name == "")) id (some name) w
      chosen e h = subst (λ b. Checks (choose b) id (some name) w) e h

  store_update_world :
      (id : String) (values : UpdatedValues) (w : W)
      → (store_update s id values w).1
        ≡ (s.update_item
            (project_key id)
            (attribute_of "name" values.name ++ attribute_of "description" values.description)
            w).1
  store_update_world id values w = ground arith

  -- Either nothing is written and the call does not return; or a name or a description was given,
  -- the project is there, no project has the new name, and the one write sets what was given.
  pub update_project-checked :
      (id : String) (values : UpdatedValues) (w : W)
      → ((is_ok (update_project s id values w).0 ≡ false) × ((update_project s id values w).1 ≡ w))
        ⊎ ((p : Project) × ((get_project s id w).0 ≡ ok p)
            × IsFree values.name w
            × ((not (text_present values.name) && not (text_present values.description)) ≡ false)
            × ((update_project s id values w).1
                ≡ (s.update_item
                    (project_key id)
                    (attribute_of "name" values.name
                      ++ attribute_of "description" values.description)
                    w).1))
  unfolding update_project
  update_project-checked id values w =
      let nothing = not (text_present values.name) && not (text_present values.description) in
      let check = check_update s id values.name in
      let (same, checks) = check_update-Checks id values.name w in
      elim (Bool-cases nothing) [
        | inl e ↦ inl (ground arith, ground arith)
        | inr e ↦ elim checks [
          | inl failed ↦
              let (fails, kept) = bind-fails check (λ _. store_update s id values) w failed in
              inl (ground (arith, fails), ground (arith, kept, same))
          | inr (done, (p, there, free)) ↦
              let runs = bind-runs check (λ _. store_update s id values) w done same in
              inr (p, there, free, e, ground (arith, runs, store_update_world id values w))
        ]
      ]
