-- ===== src/Accounts/ProjectLists.antt =====
-- listProjects of workbench-core/accounts/src/services/projectService.ts. The table's queries by pages
-- are a parameter. A page size is never negative here.
pub mod Own
mod Tests
use research_service_workben.Base.{
  ℕ, zero, suc, String, Bool, true, false, Option, none, some, List, [], ◌∷◌, map, Result, ok, err,
  Error, Async, pure, lift, throw, ◌>>=◌, ◌>>◌, ◌>>?◌, map_result, includes, split, part, Page,
}
use research_service_workben.Accounts.Models.{Project, FilterRequest, SortRequest}
use research_service_workben.Accounts.Listing.{
  Order, Tokens, project_key, manual_filter_projects, manual_sort_projects,
  build_page_and_pagination_token_after_get_items,
}
use research_service_workben.Accounts.Projects.{
  Item, ProjectStore, map_ddb_item_to_project, get_project,
}
use research_service_workben.Queries.{
  QueryParams, QueryChange, validate_single_sort_and_filter, get_filter_query_params,
  get_sort_query_params, changed, add_pagination_token,
}

pub record ListProjectsRequest : Type 0 where
  pub page_size : Option ℕ
  pub pagination_token : Option String
  pub filter : Option FilterRequest
  pub sort : Option SortRequest

pub record ListStore (W : Type 0) : Type 0 where
  pub projects : ProjectStore W
  pub get_paginated_items : QueryParams → Async W (Page Item)
  pub tokens : Tokens
  pub locale_compare : String → String → Order
  pub to_lower_case : String → String

abbrev default_api_page_size : ℕ
default_api_page_size = 50

-- A size of 0 counts as none.
abbrev pub page_size_of : Option ℕ → ℕ
page_size_of none = default_api_page_size
page_size_of (some zero) = default_api_page_size
page_size_of (some (suc n)) = suc n

-- The indexes of the list, by what follows `getResourceBy`.
abbrev pub list_project_gsi_names : List String
list_project_gsi_names = "CreatedAt" ∷ "Dependency" ∷ "Name" ∷ "Status" ∷ []

abbrev first_part : Option String → String
first_part none = ""
first_part (some s) = s

-- A group's name begins with the id of its project.
unfoldable pub project_of_group : String → String
project_of_group g = first_part (part 0 (split b'#' g))

abbrev pub all_projects_query : ℕ → QueryParams
all_projects_query limit = record {
  resource_type = "project";
  index = "getResourceByCreatedAt";
  sort_key = none;
  condition = [];
  forward = none;
  limit = limit;
  start = none;
}

abbrev pub empty_page : Page Project
empty_page = record { items = []; pagination_token = none }

module _ {W : Type 0} (s : ListStore W) where
  unfoldable pub query_of : ListProjectsRequest → Result QueryParams
  query_of r =
      get_filter_query_params s.to_lower_case r.filter list_project_gsi_names >>? λ by_filter.
      get_sort_query_params s.to_lower_case r.sort list_project_gsi_names >>? λ by_sort.
      add_pagination_token s.tokens.from_token r.pagination_token
        (changed (changed (all_projects_query (page_size_of r.page_size)) by_filter) by_sort)

  -- What an IT administrator is given: a page of a query over all projects.
  unfoldable pub list_all : ListProjectsRequest → Async W (Page Project)
  list_all r = do
    query ← lift (query_of r)
    page ← s.get_paginated_items query
    items ← lift (map_result (map_ddb_item_to_project s.projects) page.items)
    pure (record { items = items; pagination_token = page.pagination_token })

  -- A sort starts from all projects again, so that it drops the filter.
  abbrev pub arranged :
      Option FilterRequest → Option SortRequest → List Project → Result (List Project)
  arranged none none projects =
      manual_sort_projects s.locale_compare (("createdAt", some "asc") ∷ []) projects
  arranged (some f) none projects = manual_filter_projects f projects
  arranged none (some o) projects = manual_sort_projects s.locale_compare o projects
  arranged (some f) (some o) projects = manual_filter_projects f projects >>? λ dropped.
      manual_sort_projects s.locale_compare o projects

  abbrev pub page_of : ListProjectsRequest → List Item → Result (Page Project)
  page_of r items = map_result (map_ddb_item_to_project s.projects) items >>? λ projects.
      arranged r.filter r.sort projects >>? λ on_page.
      build_page_and_pagination_token_after_get_items s.tokens r.pagination_token on_page
        (page_size_of r.page_size)

  -- What a member of several groups is given: a page of the projects of these groups.
  unfoldable pub list_of_groups : ListProjectsRequest → List String → Async W (Page Project)
  list_of_groups r groups =
      s.projects.get_items (map (λ g. project_key (project_of_group g)) groups) >>= λ items.
      lift (page_of r items)

  abbrev pub list_for : ListProjectsRequest → Bool → List String → Async W (Page Project)
  list_for r true groups = list_all r
  list_for r false [] = pure empty_page
  list_for r false (g ∷ []) = do
    p ← get_project s.projects (project_of_group g)
    pure (record { items = p ∷ []; pagination_token = none })
  list_for r false (g ∷ h ∷ groups) = list_of_groups r (g ∷ h ∷ groups)

  unfoldable pub list_projects :
      ListProjectsRequest → (user_groups : List String) → Async W (Page Project)
  list_projects r groups =
      lift (validate_single_sort_and_filter r.filter r.sort)
      >> list_for r (includes "ITAdmin" groups) groups
