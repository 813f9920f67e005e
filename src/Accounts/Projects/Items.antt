-- ===== src/Accounts/Projects/Items.antt =====
-- Projects and their items in the table.
use research_service_workben.Base.{String, true, ◌≡◌, refl, ok, ◌&&◌, ◌++◌, [], ◌∷◌}
use research_service_workben.Accounts.Models.{Project, properties}
use research_service_workben.Accounts.Projects.{
  ProjectStore, map_to_ddb_item_from_project, map_ddb_item_to_project, read_project, is_status,
}

-- A project with a known status and of the right format is read back from its item, with the keys
-- that the table adds, as it was written: what is stored under `dependency` is its cost center.
pub map_ddb_item-map_to_ddb_item :
    {W : Type 0} (s : ProjectStore W) (p : Project) (pk sk : String)
    → (is_status p.status && s.has_format p) ≡ true
    → map_ddb_item_to_project s (map_to_ddb_item_from_project p ++ ("pk", pk) ∷ ("sk", sk) ∷ [])
      ≡ ok p
unfolding map_ddb_item_to_project map_to_ddb_item_from_project read_project properties
map_ddb_item-map_to_ddb_item s p pk sk h = rw h refl
