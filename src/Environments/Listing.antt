-- ===== src/Environments/Listing.antt =====
-- The lists of environments of workbench-core/environments/src/services/environmentService.ts, by
-- queries over the table's indexes.
use research_service_workben.Base.{
  ℕ, zero, suc, String, Option, none, some, List, [], ◌∷◌, Result, ok, Async, pure, lift, ◌>>=◌,
  ◌>>?◌, map_result, lookup, Page,
}
use research_service_workben.Accounts.Models.{FilterValue, FilterRequest, SortRequest}
use research_service_workben.Queries.{
  QueryParams, validate_single_sort_and_filter, get_filter_query_params, get_sort_query_params,
  changed, add_pagination_token,
}
use research_service_workben.Environments.Models.{Item, need}
use research_service_workben.Environments.Reading.{with_project}

pub record EnvironmentItem : Type 0 where
  pub id : String
  pub instance_id : String
  pub project_id : String
  pub name : String
  pub description : String
  pub status : String
  pub env_type_config_id : String
  pub provisioned_product_id : String
  pub owner : String
  pub created_at : String
  pub updated_at : String

pub record ListEnvironmentsRequest : Type 0 where
  pub page_size : Option ℕ
  pub pagination_token : Option String
  pub filter : Option FilterRequest
  pub sort : Option SortRequest

pub record EnvironmentIndex (W : Type 0) : Type 0 where
  pub get_paginated_items : QueryParams → Async W (Page Item)
  pub from_token : String → Result String
  pub to_lower_case : String → String

-- `z.string().default('')`
abbrev text_or_empty : String → Item → Result String
text_or_empty k d = elim (lookup k d) [ none ↦ ok "" | some v ↦ need k d ]

unfoldable pub parse_environment_item : Item → Result EnvironmentItem
parse_environment_item d = need "id" d >>? λ id. text_or_empty "instanceId" d >>? λ instance_id.
    need "projectId" d >>? λ project_id. need "name" d >>? λ name.
    need "description" d >>? λ description. need "status" d >>? λ status.
    need "envTypeConfigId" d >>? λ env_type_config_id.
    need "provisionedProductId" d >>? λ provisioned_product_id. need "owner" d >>? λ owner.
    need "createdAt" d >>? λ created_at. need "updatedAt" d >>? λ updated_at. ok (record {
      id = id;
      instance_id = instance_id;
      project_id = project_id;
      name = name;
      description = description;
      status = status;
      env_type_config_id = env_type_config_id;
      provisioned_product_id = provisioned_product_id;
      owner = owner;
      created_at = created_at;
      updated_at = updated_at;
    })

unfoldable pub map_ddb_item_to_environment_item : Item → Result EnvironmentItem
map_ddb_item_to_environment_item item =
    parse_environment_item (with_project item (lookup "dependency" item))

-- A size of 0 counts as none, for which there are 50.
abbrev pub page_size_of : Option ℕ → ℕ
page_size_of none = 50
page_size_of (some zero) = 50
page_size_of (some (suc n)) = suc n

abbrev gsi_names : List String
gsi_names = "Name" ∷ "Status" ∷ "CreatedAt" ∷ "Dependency" ∷ "Owner" ∷ "Type" ∷ "Status" ∷ []

abbrev all_environments_query : ℕ → QueryParams
all_environments_query limit = record {
  resource_type = "environment";
  index = "getResourceByCreatedAt";
  sort_key = none;
  condition = [];
  forward = none;
  limit = limit;
  start = none;
}

module _ {W : Type 0} (s : EnvironmentIndex W) where
  unfoldable pub query_of : ListEnvironmentsRequest → Result QueryParams
  query_of r = validate_single_sort_and_filter r.filter r.sort >>? λ valid.
      get_filter_query_params s.to_lower_case r.filter gsi_names >>? λ by_filter.
      get_sort_query_params s.to_lower_case r.sort gsi_names >>? λ by_sort.
      add_pagination_token s.from_token r.pagination_token
        (changed (changed (all_environments_query (page_size_of r.page_size)) by_filter) by_sort)

  unfoldable pub list_environments : ListEnvironmentsRequest → Async W (Page EnvironmentItem)
  list_environments r = do
    query ← lift (query_of r)
    page ← s.get_paginated_items query
    items ← lift (map_result map_ddb_item_to_environment_item page.items)
    pure (record { items = items; pagination_token = page.pagination_token })

  unfoldable pub list_environments_by_project :
      (project_id : String)
      → (page_size : Option ℕ) → (token sort : Option String) → Async W (Page EnvironmentItem)
  list_environments_by_project project_id page_size token sort = list_environments (record {
    page_size = page_size;
    pagination_token = token;
    filter = some (("dependency", some (("eq", some (FilterValue.text project_id)) ∷ [])) ∷ []);
    sort = some (("dependency", sort) ∷ []);
  })
