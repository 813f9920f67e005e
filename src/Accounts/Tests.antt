-- ===== src/Accounts/Tests.antt =====
-- Runs of the accounts on small inputs.
use Prim.Native.String.{[], ◌∷◌}
use package.text.Mathlib.TextLemmas.{nil-append, cons-append}
use mathlib.Core.List.{Perm}
use mathlib.Core.Bool.{false≢true}
use research_service_workben.Base.{
  ℕ, units, is_ok, ◌&&◌, not, String, Bool, true, false, none, some, List, [], ◌∷◌, ◌++◌, ◌≡◌, refl,
  ap, sym, ◌∙◌, inl, inr, Bool-cases, eq_iff, ◌⊎◌, ok, pure, lift, collect, arith, ◌<>◌, ◌==◌,
  if◌then◌else◌,
}
use research_service_workben.Accounts.Models.{Project, properties, text}
use research_service_workben.Accounts.Listing.{
  Order, same, before, after, units_less, less, sort, insert, filter_result, compare_project,
  Tokens, project_key, order, manual_sort_projects, manual_filter_projects,
  build_page_and_pagination_token_after_get_items,
}
use research_service_workben.Accounts.Listing.Paging.{IsEncoding, collect-build_page}
use research_service_workben.Accounts.Listing.Sorting.{
  IsCollation, IsOrdered, manual_sort_projects-IsOrdered,
}
use research_service_workben.Accounts.Listing.Filtering.{
  Passes, IsFiltered, manual_filter_projects-IsFiltered,
}
use research_service_workben.Accounts.Projects.{
  ProjectStore, CostCenter, CreateProjectRequest, map_to_ddb_item_from_project,
  map_ddb_item_to_project, deleted_item, new_project, create_project, soft_delete_project,
  get_project, UpdatedValues, update_project, text_present, attribute_of, Item,
  is_project_name_in_use,
}
use research_service_workben.Accounts.Projects.Items.{map_ddb_item-map_to_ddb_item}
use research_service_workben.Accounts.Projects.Updates.{IsFree, update_project-checked}
use research_service_workben.Accounts.Projects.Guards.{
  IsReadOnly, soft_delete_project-checked, create_project-checked,
}
use research_service_workben.Accounts.Projects
use research_service_workben.Accounts.HostingModels.{FullCostCenter, parse_cost_center}
use research_service_workben.Accounts.CostCenters.{
  CenterStore, center_key, map_ddb_item_to_cost_center, get_cost_center,
}
use research_service_workben.Accounts.Instance.{
  as_center, with_cost_centers, create_project-get_cost_center,
}

abbrev center : CostCenter
center = record {
  id = "cc-1";
  status = "AVAILABLE";
  subnet_id = "subnet";
  vpc_id = "vpc";
  env_mgmt_role_arn = "arn:env";
  external_id = "ext";
  encryption_key_arn = "arn:key";
  environment_instance_files = "s3://files";
  hosting_account_handler_role_arn = "arn:host";
  aws_account_id = "123456789012";
  account_id = "acc-1";
}

abbrev asked : CreateProjectRequest
asked = record { name = "genomes"; cost_center_id = "cc-1"; description = "reads" }

abbrev genomes : Project
genomes = new_project "proj-1" "2023-01-01" asked center

abbrev proteins : Project
proteins = record genomes { id = "proj-2"; name = "proteins" }

abbrev cells : Project
cells = record genomes { id = "proj-3"; name = "cells" }

abbrev projects : List Project
projects = genomes ∷ proteins ∷ cells ∷ []

abbrev without_first : String → String
without_first [] = []
without_first (c ∷ s) = s

without_first-t : (k : String) → without_first ("t" <> k) ≡ k
without_first-t k = rw (cons-append, nil-append) refl

abbrev is_empty_text : String → Bool
is_empty_text [] = true
is_empty_text (c ∷ s) = false

t-append-ne : (k : String) → is_empty_text ("t" <> k) ≡ false
t-append-ne k = rw cons-append refl

not_empty_t : (k : String) → (("t" <> k) == "") ≡ false
not_empty_t k = elim (Bool-cases (("t" <> k) == "")) [
  | inl e ↦
      absurd (false≢true (sym (t-append-ne k) ∙ ap is_empty_text ((eq_iff ("t" <> k) "").0 e)))
  | inr e ↦ e
]

-- Tokens that are the keys with a letter in front.
abbrev tokens : Tokens
tokens = record { to_token = λ k. "t" <> k; from_token = λ t. ok (without_first t) }

tokens-IsEncoding : IsEncoding tokens
tokens-IsEncoding = record {
  round_trip = λ k. ap ok (without_first-t k);
  not_empty = λ k. not_empty_t k;
}

collect-build_page_example :
    collect 4
      (λ token. lift (build_page_and_pagination_token_after_get_items tokens token projects 2))
      none
      []
      tt
    ≡ (ok projects, tt)
collect-build_page_example =
    collect-build_page tokens tokens-IsEncoding projects 2 4 tt (omega arith) (ground arith)
      (ground arith) (omega arith)

units_less_asym : (xs ys : List ℕ) → units_less xs ys ≡ true → units_less ys xs ≡ false
units_less_asym [] [] h = cc
units_less_asym [] (y ∷ ys) h = refl
units_less_asym (x ∷ xs) [] h = cc
units_less_asym (x ∷ xs) (y ∷ ys) h = ground (arith, units_less_asym xs ys)

-- By their code units.
abbrev by_units : String → String → Order
by_units a b = if less a b then before else if less b a then after else same

less_asym : (a b : String) → less a b ≡ true → less b a ≡ false
unfolding less
less_asym a b h = units_less_asym (units a) (units b) h

by_units-IsCollation : IsCollation by_units
by_units-IsCollation = record {
  flip = λ a b e. ground (arith, less_asym b a);
  flip_before = λ a b e. ground (arith, less_asym a b);
}

sorted_down :
    manual_sort_projects by_units (("name", some "desc") ∷ []) projects
    ≡ ok (proteins ∷ genomes ∷ cells ∷ [])
unfolding manual_sort_projects sort insert order less properties
sorted_down = refl

manual_sort_projects-IsOrdered_example :
    (sorted : List Project) × (manual_sort_projects by_units (("name", some "desc") ∷ []) projects
      ≡ ok sorted)
    × Perm projects sorted
    × IsOrdered by_units "name" "desc" sorted
unfolding properties
manual_sort_projects-IsOrdered_example =
    manual_sort_projects-IsOrdered by_units by_units-IsCollation "name" "desc" projects (λ p. refl)
      refl

below_d :
    manual_filter_projects (("name", some (("lt", some (text "d")) ∷ [])) ∷ []) projects
    ≡ ok (cells ∷ [])
unfolding manual_filter_projects filter_result compare_project less properties
below_d = refl

manual_filter_projects-IsFiltered_example :
    (kept : List Project) × (manual_filter_projects
        (("name", some (("lt", some (text "d")) ∷ [])) ∷ [])
        projects
      ≡ ok kept)
    × IsFiltered (Passes "name" "lt" "d") projects kept
unfolding properties
manual_filter_projects-IsFiltered_example =
    manual_filter_projects-IsFiltered "name" "lt" "d" refl (λ p. refl) projects

-- A store that holds the project `genomes`, and writes down the keys it is asked to update.
abbrev store : ProjectStore (List String)
store = record {
  get_item =
      λ k. pure (if k == "PROJ#proj-1" then some (map_to_ddb_item_from_project genomes) else none);
  get_items = λ ks. pure [];
  update_item = λ k item w. (ok none, k ∷ w);
  projects_by_name = λ n. pure [];
  projects_by_cost_center = λ c. pure [];
  get_cost_center = λ id. pure center;
  has_format = λ p. true;
}

store-IsReadOnly : IsReadOnly store
store-IsReadOnly = record {
  get_item = λ k w. refl;
  projects_by_name = λ n w. refl;
  get_cost_center = λ id w. refl;
}

map_ddb_item-map_to_ddb_item_example :
    map_ddb_item_to_project store
      (map_to_ddb_item_from_project genomes ++ ("pk", "PROJ#proj-1") ∷ ("sk", "PROJ#proj-1") ∷ [])
    ≡ ok genomes
map_ddb_item-map_to_ddb_item_example =
    map_ddb_item-map_to_ddb_item store genomes "PROJ#proj-1" "PROJ#proj-1" refl

soft_delete_project-checked_example :
    ((is_ok (soft_delete_project store "proj-1" (λ id. pure tt) []).0 ≡ false)
      × ((soft_delete_project store "proj-1" (λ id. pure tt) []).1 ≡ []))
    ⊎ ((p : Project) × (ok tt ≡ ok tt)
        × ((get_project store "proj-1" []).0 ≡ ok p)
        × ((soft_delete_project store "proj-1" (λ id. pure tt) []).1
            ≡ (store.update_item (project_key "proj-1") deleted_item []).1))
soft_delete_project-checked_example =
    soft_delete_project-checked store store-IsReadOnly "proj-1" (λ id. pure tt) []

create_project-checked_example :
    ((is_ok (create_project store "proj-1" "2023-01-01" asked []).0 ≡ false)
      × ((create_project store "proj-1" "2023-01-01" asked []).1 ≡ []))
    ⊎ ((c : CostCenter) × ((store.projects_by_name "genomes" []).0 ≡ ok [])
        × ((store.get_cost_center "cc-1" []).0 ≡ ok c)
        × (c.status ≡ "AVAILABLE")
        × ((create_project store "proj-1" "2023-01-01" asked []).1
            ≡ (store.update_item
                (project_key "proj-1")
                (map_to_ddb_item_from_project (new_project "proj-1" "2023-01-01" asked c))
                []).1))
create_project-checked_example =
    create_project-checked store store-IsReadOnly "proj-1" "2023-01-01" asked []

abbrev renamed : UpdatedValues
renamed = record { name = some "exomes"; description = none }

update_project-checked_example :
    ((is_ok (update_project store "proj-1" renamed []).0 ≡ false)
      × ((update_project store "proj-1" renamed []).1 ≡ []))
    ⊎ ((p : Project) × ((get_project store "proj-1" []).0 ≡ ok p)
        × IsFree store store-IsReadOnly (some "exomes") []
        × ((not (text_present (some "exomes")) && not (text_present none)) ≡ false)
        × ((update_project store "proj-1" renamed []).1
            ≡ (store.update_item
                (project_key "proj-1")
                (attribute_of "name" (some "exomes") ++ attribute_of "description" none)
                []).1))
update_project-checked_example = update_project-checked store store-IsReadOnly "proj-1" renamed []

-- The item of a cost center in the table.
abbrev center_item : Item
center_item =
    ("id", "cc-1")
    ∷ ("name", "genetics")
    ∷ ("description", "the lab")
    ∷ ("subnetId", "subnet")
    ∷ ("vpcId", "vpc")
    ∷ ("envMgmtRoleArn", "arn:env")
    ∷ ("externalId", "ext")
    ∷ ("encryptionKeyArn", "arn:key")
    ∷ ("environmentInstanceFiles", "s3://files")
    ∷ ("hostingAccountHandlerRoleArn", "arn:host")
    ∷ ("awsAccountId", "123456789012")
    ∷ ("createdAt", "2022-12-01")
    ∷ ("updatedAt", "2022-12-01")
    ∷ ("dependency", "acc-1")
    ∷ ("status", "AVAILABLE")
    ∷ []

abbrev cost_centers : CenterStore (List String)
cost_centers = record {
  accounts = record {
    get_item = λ pk sk. pure (if pk == "CC#cc-1" then some center_item else none);
    query = λ pk. pure [];
    update_item = λ pk sk item w. (ok none, pk ∷ w);
    get_paginated_items = λ q. pure (record { items = []; pagination_token = none });
    has_account_format = λ a. true;
    has_cost_center_format = λ c. true;
    stack_name = "workbench";
  };
  from_token = λ t. ok t;
  to_lower_case = λ t. t;
}

project_created :
    is_ok (create_project (with_cost_centers cost_centers store) "proj-1" "2023-01-01" asked []).0
    ≡ true
unfolding create_project is_project_name_in_use Projects.get_cost_center get_cost_center center_key
    map_ddb_item_to_cost_center parse_cost_center
project_created = refl

create_project-get_cost_center_example :
    ((is_ok (create_project (with_cost_centers cost_centers store) "proj-1" "2023-01-01" asked []).0
        ≡ false)
      × ((create_project (with_cost_centers cost_centers store) "proj-1" "2023-01-01" asked []).1
          ≡ []))
    ⊎ ((item : Item) × (f : FullCostCenter) × ((store.projects_by_name "genomes" []).0 ≡ ok [])
        × ((cost_centers.accounts.get_item (center_key "cc-1") (center_key "cc-1") []).0
            ≡ ok (some item))
        × (map_ddb_item_to_cost_center cost_centers item ≡ ok f)
        × (f.status ≡ "AVAILABLE")
        × ((create_project (with_cost_centers cost_centers store) "proj-1" "2023-01-01" asked []).1
            ≡ (store.update_item
                (project_key "proj-1")
                (map_to_ddb_item_from_project
                  (new_project "proj-1" "2023-01-01" asked (as_center f)))
                []).1))
create_project-get_cost_center_example =
    create_project-get_cost_center cost_centers store store-IsReadOnly (λ pk sk w. refl) "proj-1"
      "2023-01-01" asked []
