-- ===== src/Accounts/CostCenters.antt =====
-- workbench-core/accounts/src/services/costCenterService.ts: cost centers, each of a hosting account.
-- New ids and the time are parameters.
pub mod Guards
use research_service_workben.Base.{
  ℕ, String, Bool, true, false, not, Option, none, some, List, [], ◌∷◌, ◌++◌, Result, ok, err,
  Error, Async, pure, throw, throw_if, lift, try_catch, ◌>>=◌, ◌>>◌, ◌>>?◌, map_result, lookup,
  ◌==◌, ◌<>◌, Page,
}
use research_service_workben.Authorization.Casl.{assign, omit}
use research_service_workben.Accounts.Models.{FilterRequest, SortRequest}
use research_service_workben.Accounts.Projects.{Item}
use research_service_workben.Accounts.HostingModels.{
  FullCostCenter, Account, AccountStore, parse_cost_center,
}
use research_service_workben.Accounts.HostingAccounts.{get_account}
use research_service_workben.Queries.{
  QueryParams, validate_single_sort_and_filter, get_filter_query_params, get_sort_query_params,
  changed, add_pagination_token,
}

pub record CenterStore (W : Type 0) : Type 0 where
  pub accounts : AccountStore W
  pub from_token : String → Result String
  pub to_lower_case : String → String

pub record UpdateCostCenterRequest : Type 0 where
  pub id : String
  pub name : Option String
  pub description : Option String

pub record CreateCostCenterRequest : Type 0 where
  pub name : String
  pub account_id : String
  pub description : String

pub record ListCostCentersRequest : Type 0 where
  pub page_size : ℕ
  pub pagination_token : Option String
  pub filter : Option FilterRequest
  pub sort : Option SortRequest

abbrev with_account : Item → Option String → Item
with_account item none = omit "accountId" item
with_account item (some d) = assign "accountId" d item

abbrev attribute : String → Option String → Item
attribute k none = []
attribute k (some v) = (k, v) ∷ []

unfoldable pub center_key : String → String
center_key id = "CC#" <> id

abbrev pub deleted_center : Item
deleted_center = ("status", "DELETED") ∷ ("resourceType", "costCenter_deleted") ∷ []

-- The attributes of a new cost center, which takes over those of its account.
unfoldable pub new_center : (id now : String) → CreateCostCenterRequest → Account → Item
new_center id now r a =
    (("createdAt", now)
      ∷ ("updatedAt", now)
      ∷ ("id", id)
      ∷ ("dependency", r.account_id)
      ∷ ("description", r.description)
      ∷ ("name", r.name)
      ∷ ("awsAccountId", a.aws_account_id)
      ∷ ("hostingAccountHandlerRoleArn", a.hosting_account_handler_role_arn)
      ∷ ("envMgmtRoleArn", a.env_mgmt_role_arn)
      ∷ [])
    ++ attribute "encryptionKeyArn" a.encryption_key_arn
    ++ attribute "subnetId" a.subnet_id
    ++ attribute "vpcId" a.vpc_id
    ++ attribute "environmentInstanceFiles" a.environment_instance_files
    ++ (("externalId", a.external_id)
        ∷ ("status", "AVAILABLE")
        ∷ ("resourceType", "costCenter")
        ∷ [])

abbrev all_centers_query : ℕ → QueryParams
all_centers_query limit = record {
  resource_type = "costCenter";
  index = "getResourceByCreatedAt";
  sort_key = none;
  condition = [];
  forward = none;
  limit = limit;
  start = none;
}

abbrev center_gsi_names : List String
center_gsi_names = "Name" ∷ []

module _ {W : Type 0} (s : CenterStore W) where
  unfoldable pub map_ddb_item_to_cost_center : Item → Result FullCostCenter
  map_ddb_item_to_cost_center item =
      parse_cost_center s.accounts (with_account item (lookup "dependency" item))

  abbrev pub found_center : Option Item → Result FullCostCenter
  found_center none = err Error.not_found
  found_center (some item) = map_ddb_item_to_cost_center item

  abbrev pub returned_center : Option Item → Result FullCostCenter
  returned_center none = err Error.internal
  returned_center (some item) = map_ddb_item_to_cost_center item

  unfoldable pub get_cost_center : String → Async W FullCostCenter
  get_cost_center id = do
    item ← s.accounts.get_item (center_key id) (center_key id)
    lift (found_center item)

  unfoldable pub soft_delete_cost_center :
      String → (check_dependency : String → Async W (Unit {0})) → Async W (Unit {0})
  soft_delete_cost_center id check_dependency = do
    check_dependency id
    get_cost_center id
    try_catch (s.accounts.update_item (center_key id) (center_key id) deleted_center >> pure tt)
        (λ e. throw Error.internal)

  unfoldable pub update_cost_center :
      (now : String) → UpdateCostCenterRequest → Async W FullCostCenter
  update_cost_center now r = do
    get_cost_center r.id
    item ←
        try_catch
          (s.accounts.update_item (center_key r.id) (center_key r.id) (
            attribute "name" r.name
            ++ attribute "description" r.description
            ++ (("updatedAt", now) ∷ [])))
          (λ e. throw Error.internal)
    lift (returned_center item)

  unfoldable pub query_of : ListCostCentersRequest → Result QueryParams
  query_of r = validate_single_sort_and_filter r.filter r.sort >>? λ valid.
      get_filter_query_params s.to_lower_case r.filter center_gsi_names >>? λ by_filter.
      get_sort_query_params s.to_lower_case r.sort center_gsi_names >>? λ by_sort.
      add_pagination_token s.from_token r.pagination_token
        (changed (changed (all_centers_query r.page_size) by_filter) by_sort)

  unfoldable pub list_cost_centers : ListCostCentersRequest → Async W (Page FullCostCenter)
  list_cost_centers r = do
    query ← lift (query_of r)
    page ← s.accounts.get_paginated_items query
    items ← lift (map_result map_ddb_item_to_cost_center page.items)
    pure (record { items = items; pagination_token = page.pagination_token })

  abbrev pub account_for : String → Async W Account
  account_for account_id =
      try_catch (get_account s.accounts account_id false) (λ e. throw Error.bad_request)

  abbrev pub store_center : String → Item → Async W FullCostCenter
  store_center id values = do
    item ← s.accounts.update_item (center_key id) (center_key id) values
    lift (returned_center item)

  unfoldable pub create : (id now : String) → CreateCostCenterRequest → Async W FullCostCenter
  create id now r = do
    account ← account_for r.account_id
    throw_if (not (account.status == "CURRENT")) Error.invalid_account_state
    store_center id (new_center id now r account)
