-- ===== src/Accounts/HostingAccounts.antt =====
-- workbench-core/accounts/src/services/accountService.ts: the hosting accounts in the table. An account
-- has one row under its own id, and one under the id of its AWS account. New ids are a
-- parameter. Every item of the table has its `sk`.
pub mod Creation
use research_service_workben.Base.{
  ℕ, String, Bool, true, false, not, ◌&&◌, Option, none, some, List, [], ◌∷◌, ◌++◌, if◌then◌else◌,
  Result, ok, err, Error, Async, pure, throw, throw_if, lift, ◌>>=◌, ◌>>◌, ◌>>?◌, map_result,
  lookup, ◌==◌, ◌<>◌, Page, find, part, split, includes, truthy, ◌||◌,
}
use research_service_workben.Accounts.Projects.{Item, need}
use research_service_workben.Queries.{QueryParams}
use research_service_workben.Accounts.HostingModels.{
  FullCostCenter, Account, AccountStore, zod_error, AccountMetadata, CreateAccountRequest,
  parse_cost_center, checked_account, parse_account,
}

abbrev attribute : String → Option String → Item
attribute k none = []
attribute k (some v) = (k, v) ∷ []

abbrev pub new_account : String → CreateAccountRequest → AccountMetadata
new_account id r = record {
  id = id;
  name = some r.name;
  aws_account_id = some r.aws_account_id;
  env_mgmt_role_arn = some r.env_mgmt_role_arn;
  hosting_account_handler_role_arn = some r.hosting_account_handler_role_arn;
  vpc_id = none;
  subnet_id = none;
  encryption_key_arn = none;
  environment_instance_files = some r.environment_instance_files;
  status = some "PENDING";
  external_id = some r.external_id;
}

-- The row of the AWS account, for which there is no duplicate.
abbrev pub aws_account_item : (id aws_account_id : String) → Item
aws_account_item id aws_account_id =
    ("id", aws_account_id)
    ∷ ("accountId", id)
    ∷ ("awsAccountId", aws_account_id)
    ∷ ("resourceType", "awsAccount")
    ∷ []

abbrev pub no_items : List Item → Bool
no_items [] = true
no_items (x ∷ xs) = false

abbrev is_text : Option String → String → Bool
is_text none s = false
is_text (some a) s = a == s

abbrev text_of : Option String → String
text_of none = ""
text_of (some s) = s

module _ {W : Type 0} (s : AccountStore W) where
  abbrev found_account : Option Item → Result Account
  found_account none = err Error.not_found
  found_account (some item) = parse_account s item

  -- The last cost center among the other items is the account's.
  abbrev with_center : Account → Item → Result Account
  with_center a item =
      if is_text (part 0 (split b'#' (text_of (lookup "sk" item)))) "CC"
      then (parse_cost_center s item >>? λ c. ok (record a { cost_center = some c }))
      else ok a

  unfoldable pub add_centers : (pk : String) → Account → List Item → Result Account
  add_centers pk a [] = ok a
  add_centers pk a (item ∷ items) =
      (if is_text (lookup "sk" item) pk then ok a else with_center a item) >>? λ a'.
      add_centers pk a' items

  abbrev own_account : Option Item → Result Account
  own_account none = err zod_error
  own_account (some item) = parse_account s item

  abbrev joined : (pk : String) → List Item → Result Account
  joined pk [] = err Error.not_found
  joined pk (i ∷ is) = own_account (find (λ item. is_text (lookup "sk" item) pk) (i ∷ is)) >>? λ a.
      add_centers pk a (i ∷ is)

  unfoldable pub get_account : String → (include_metadata : Bool) → Async W Account
  get_account id false = do
    item ← s.get_item ("ACC#" <> id) ("ACC#" <> id)
    lift (found_account item)
  get_account id true = do items ← s.query ("ACC#" <> id); lift (joined ("ACC#" <> id) items)

  unfoldable pub get_paginated_accounts : QueryParams → Async W (Page Account)
  get_paginated_accounts q = do
    page ← s.get_paginated_items q
    items ← lift (map_result (parse_account s) page.items)
    pure (record { items = items; pagination_token = page.pagination_token })

  -- The attributes of the account's own row.
  unfoldable pub account_item : AccountMetadata → Item
  account_item m =
      (("id", m.id) ∷ [])
      ++ attribute "name" m.name
      ++ attribute "awsAccountId" m.aws_account_id
      ++ attribute "envMgmtRoleArn" m.env_mgmt_role_arn
      ++ attribute "hostingAccountHandlerRoleArn" m.hosting_account_handler_role_arn
      ++ attribute "vpcId" m.vpc_id
      ++ attribute "subnetId" m.subnet_id
      ++ attribute "encryptionKeyArn" m.encryption_key_arn
      ++ attribute "environmentInstanceFiles" m.environment_instance_files
      ++ (("stackName", s.stack_name <> "-hosting-account") ∷ [])
      ++ attribute "status" m.status
      ++ attribute "externalId" m.external_id
      ++ (("resourceType", "account") ∷ [])

  abbrev pub store_aws_account : String → Option String → Async W (Unit {0})
  store_aws_account id none = pure tt
  store_aws_account id (some aws_account_id) =
      s.update_item ("AWSACC#" <> aws_account_id) ("ACC#" <> id)
        (aws_account_item id aws_account_id)
      >> pure tt

  unfoldable pub store_to_ddb : AccountMetadata → Async W Account
  store_to_ddb m = do
    item ← s.update_item ("ACC#" <> m.id) ("ACC#" <> m.id) (account_item m)
    account ← lift (own_account item)
    store_aws_account m.id (truthy m.aws_account_id)
    pure account

  unfoldable pub validate_create : (aws_account_id : String) → Async W (Unit {0})
  validate_create aws_account_id = do
    items ← s.query ("AWSACC#" <> aws_account_id)
    throw_if (not (no_items items)) Error.bad_request

  unfoldable pub create : (id : String) → CreateAccountRequest → Async W Account
  create id r = do validate_create r.aws_account_id; store_to_ddb (new_account id r)

  unfoldable pub validate_update : String → (aws_account_id : Option String) → Async W (Unit {0})
  validate_update id none = pure tt
  validate_update id (some aws_account_id) = do
    account ← get_account id false
    throw_if (not (account.aws_account_id == aws_account_id)) Error.bad_request

  unfoldable pub update : AccountMetadata → Async W Account
  update m = do
    validate_update m.id m.aws_account_id
    account ← store_to_ddb m
    lift (checked_account s account)
