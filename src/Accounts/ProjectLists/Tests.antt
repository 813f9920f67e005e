-- ===== src/Accounts/ProjectLists/Tests.antt =====
-- Runs of listProjects and of the parameters of its queries.
use research_service_workben.Base.{
  String, Bool, true, false, none, some, List, [], ◌∷◌, ◌≡◌, refl, ap, sym, ◌∙◌, inl, inr, ok, All,
  Exists, includes, pure, ◌==◌, eq_iff, Bool-cases, if◌then◌else◌, ok_injective, split, arith,
}
use mathlib.Core.Path.{subst}
use research_service_workben.Accounts.Models.{Project, text, FilterRequest, SortRequest, properties}
use research_service_workben.Accounts.Listing.{
  same, project_key, manual_sort_projects, sort, insert, order,
  build_page_and_pagination_token_after_get_items, start_page, cut_page,
}
use research_service_workben.Accounts.Projects.{
  Item, ProjectStore, map_ddb_item_to_project, map_to_ddb_item_from_project, read_project,
}
use research_service_workben.Queries.{
  QueryChange, validate_single_sort_and_filter, get_filter_query_params, get_sort_query_params,
}
use research_service_workben.Accounts.ProjectLists.{
  ListStore, ListProjectsRequest, project_of_group, list_of_groups, list_projects,
  list_project_gsi_names,
}
use research_service_workben.Accounts.ProjectLists.Own.{
  IsUnder, IsKeyed, IsOwn, list_projects-IsOwn,
}

abbrev exomes : Project
exomes = record {
  id = "proj-1";
  name = "exomes";
  description = "";
  cost_center_id = "cc-1";
  status = "AVAILABLE";
  created_at = "2023-01-01";
  updated_at = "2023-01-01";
  aws_account_id = "123";
  env_mgmt_role_arn = "role";
  hosting_account_handler_role_arn = "handler";
  vpc_id = "vpc";
  subnet_id = "subnet";
  environment_instance_files = "files";
  encryption_key_arn = "key";
  external_id = "external";
  account_id = "acc-1";
}

abbrev stored : Item
stored = map_to_ddb_item_from_project exomes

abbrev if_asked : Bool → List Item
if_asked true = stored ∷ []
if_asked false = []

-- A table that keeps the project `proj-1`.
abbrev store : ProjectStore (Unit {0})
store = record {
  get_item = λ k. pure (if k == "PROJ#proj-1" then some stored else none);
  get_items = λ ks. pure (if_asked (includes "PROJ#proj-1" ks));
  update_item = λ k item. pure none;
  projects_by_name = λ n. pure [];
  projects_by_cost_center = λ c. pure [];
  get_cost_center = λ id. pure (record {
    id = "cc-1";
    status = "AVAILABLE";
    subnet_id = "";
    vpc_id = "";
    env_mgmt_role_arn = "";
    external_id = "";
    encryption_key_arn = "";
    environment_instance_files = "";
    hosting_account_handler_role_arn = "";
    aws_account_id = "";
    account_id = "";
  });
  has_format = λ p. true;
}

abbrev lists : ListStore (Unit {0})
lists = record {
  projects = store;
  get_paginated_items = λ q. pure (record { items = stored ∷ []; pagination_token = none });
  tokens = record { to_token = λ s. s; from_token = λ s. ok s };
  locale_compare = λ a b. same;
  to_lower_case = λ s. if s == "Name" then "name" else s;
}

stored-IsUnder : IsUnder store stored "PROJ#proj-1"
unfolding map_ddb_item_to_project map_to_ddb_item_from_project read_project project_key properties
stored-IsUnder p e = ap (λ p. project_key p.id) (sym (ok_injective e))

injective : {A : Type 0} {a b : A} → some a ≡ some b → a ≡ b
injective h = cc

asked-Exists :
    (ks : List String) → includes "PROJ#proj-1" ks ≡ true → Exists (IsUnder store stored) ks
asked-Exists [] h = absurd (ground arith)
asked-Exists (k ∷ ks) h = elim (Bool-cases (k == "PROJ#proj-1")) [
  | inl e ↦ inl (λ p f. stored-IsUnder p f ∙ sym ((eq_iff k "PROJ#proj-1").0 e))
  | inr e ↦ inr (asked-Exists ks (ground arith))
]

keyed : IsKeyed store
keyed = record {
  get_item = λ k w item e. elim (Bool-cases (k == "PROJ#proj-1")) [
    | inl f ↦
        let same_item : some stored ≡ some item = ok_injective (ground (arith, e)) in
        subst (λ i. IsUnder store i k) (injective same_item)
          (λ p g. stored-IsUnder p g ∙ sym ((eq_iff k "PROJ#proj-1").0 f))
    | inr f ↦ absurd (ground (arith, e))
  ];
  get_items = λ ks w items e. elim (Bool-cases (includes "PROJ#proj-1" ks)) [
    | inl f ↦
        subst (All (λ i. Exists (IsUnder store i) ks)) (ap if_asked (sym f) ∙ ok_injective e)
          (asked-Exists ks f, tt)
    | inr f ↦
        subst (All (λ i. Exists (IsUnder store i) ks)) (ap if_asked (sym f) ∙ ok_injective e) tt
  ];
}

abbrev by_name : ListProjectsRequest
by_name = record {
  page_size = none;
  pagination_token = none;
  filter = none;
  sort = some (("name", some "asc") ∷ []);
}

abbrev groups : List String
groups = "proj-1#Researcher" ∷ "proj-2#ProjectAdmin" ∷ []

own_listed :
    (list_projects lists by_name groups tt).0
    ≡ ok (record { items = exomes ∷ []; pagination_token = none })
unfolding list_projects validate_single_sort_and_filter list_of_groups project_of_group split
    project_key map_ddb_item_to_project map_to_ddb_item_from_project read_project properties
    manual_sort_projects sort insert order build_page_and_pagination_token_after_get_items
    start_page cut_page
own_listed = refl

list_projects-IsOwn_example : All (IsOwn groups) (exomes ∷ [])
list_projects-IsOwn_example = list_projects-IsOwn lists keyed by_name groups tt refl own_listed

abbrev named : FilterRequest
named = ("name", some (("eq", some (text "exomes")) ∷ [])) ∷ []

abbrev ordered : SortRequest
ordered = ("name", some "asc") ∷ []

abbrev filtering : QueryChange
filtering = record {
  index = "getResourceByName";
  sort_key = "name";
  condition = some (("eq", text "exomes") ∷ []);
  forward = none;
}

abbrev sorting : QueryChange
sorting = record {
  index = "getResourceByName";
  sort_key = "name";
  condition = none;
  forward = some true;
}

accepted : validate_single_sort_and_filter (some named) (some ordered) ≡ ok tt
unfolding validate_single_sort_and_filter
accepted = refl

filters_name :
    get_filter_query_params lists.to_lower_case (some named) list_project_gsi_names
    ≡ ok (some filtering)
unfolding get_filter_query_params
filters_name = refl

sorts_name :
    get_sort_query_params lists.to_lower_case (some ordered) list_project_gsi_names
    ≡ ok (some sorting)
unfolding get_sort_query_params
sorts_name = refl
