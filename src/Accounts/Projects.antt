-- ===== src/Accounts/Projects.antt =====
-- workbench-core/accounts/src/services/projectService.ts. The table of DynamoDB and the cost center
-- service are parameters, as are a new id, the time, and the formats that the parser asks of a
-- project's texts. The lists of projects are in Accounts/ProjectLists.
pub mod Items
pub mod Guards
pub mod Updates
use research_service_workben.Base.{
  ℕ, String, Bool, true, false, not, ◌&&◌, ◌||◌, Option, none, some, List, [], ◌∷◌, ◌++◌, map,
  if◌then◌else◌, Result, ok, err, hang, Error, Async, pure, throw, throw_if, lift, try_catch, both,
  ◌>>=◌, ◌>>◌, ◌>>?◌, map_result, Dict, lookup, ltb, length, ◌==◌, is_some,
}
use research_service_workben.Authorization.Casl.{assign, omit}
use research_service_workben.Accounts.Models.{Project, properties}
use research_service_workben.Accounts.Listing.{project_key}

-- An item of the table, its attributes being texts.
abbrev pub Item : Type 0
Item = Dict String

-- What the cost center service returns.
pub record CostCenter : Type 0 where
  pub id : String
  pub status : String
  pub subnet_id : String
  pub vpc_id : String
  pub env_mgmt_role_arn : String
  pub external_id : String
  pub encryption_key_arn : String
  pub environment_instance_files : String
  pub hosting_account_handler_role_arn : String
  pub aws_account_id : String
  pub account_id : String

pub record ProjectStore (W : Type 0) : Type 0 where
  pub get_item : String → Async W (Option Item)
  pub get_items : List String → Async W (List Item)
  -- Sets the attributes, and returns the item's new attributes if it is asked for them.
  pub update_item : String → Item → Async W (Option Item)
  pub projects_by_name : String → Async W (List Item)
  pub projects_by_cost_center : String → Async W (List Item)
  pub get_cost_center : String → Async W CostCenter
  pub has_format : Project → Bool

pub record CreateProjectRequest : Type 0 where
  pub name : String
  pub cost_center_id : String
  pub description : String

pub record UpdatedValues : Type 0 where
  pub name : Option String
  pub description : Option String

abbrev pub need : String → Item → Result String
need k item = elim (lookup k item) [ none ↦ err (Error.other "ZodError") | some v ↦ ok v ]

-- The properties of a project among attributes, each of which is required.
unfoldable pub read_project : Item → Result Project
read_project d = need "id" d >>? λ id. need "name" d >>? λ name.
    need "description" d >>? λ description. need "costCenterId" d >>? λ cost_center_id.
    need "status" d >>? λ status. need "createdAt" d >>? λ created_at.
    need "updatedAt" d >>? λ updated_at. need "awsAccountId" d >>? λ aws_account_id.
    need "envMgmtRoleArn" d >>? λ env_mgmt_role_arn.
    need "hostingAccountHandlerRoleArn" d >>? λ hosting_account_handler_role_arn.
    need "vpcId" d >>? λ vpc_id. need "subnetId" d >>? λ subnet_id.
    need "environmentInstanceFiles" d >>? λ environment_instance_files.
    need "encryptionKeyArn" d >>? λ encryption_key_arn. need "externalId" d >>? λ external_id.
    need "accountId" d >>? λ account_id. ok (record {
      id = id;
      name = name;
      description = description;
      cost_center_id = cost_center_id;
      status = status;
      created_at = created_at;
      updated_at = updated_at;
      aws_account_id = aws_account_id;
      env_mgmt_role_arn = env_mgmt_role_arn;
      hosting_account_handler_role_arn = hosting_account_handler_role_arn;
      vpc_id = vpc_id;
      subnet_id = subnet_id;
      environment_instance_files = environment_instance_files;
      encryption_key_arn = encryption_key_arn;
      external_id = external_id;
      account_id = account_id;
    })

unfoldable pub map_to_ddb_item_from_project : Project → Item
map_to_ddb_item_from_project p =
    omit "costCenterId"
      (assign "dependency" p.cost_center_id (assign "resourceType" "project" (properties p)))

-- `{ ...item, costCenterId: item.dependency }`
abbrev pub with_cost_center : Item → Option String → Item
with_cost_center item none = omit "costCenterId" item
with_cost_center item (some d) = assign "costCenterId" d item

-- A status that the enumeration ProjectStatus has.
abbrev pub is_status : String → Bool
is_status s = s == "AVAILABLE" || s == "SUSPENDED" || s == "DELETED"

abbrev pub text_present : Option String → Bool
text_present none = false
text_present (some s) = not (s == "")

abbrev pub attribute_of : String → Option String → Item
attribute_of k none = []
attribute_of k (some v) = (k, v) ∷ []

-- The item that marks a project as deleted.
abbrev pub deleted_item : Item
deleted_item = ("resourceType", "project_deleted") ∷ ("status", "DELETED") ∷ []

abbrev pub new_project : (id now : String) → CreateProjectRequest → CostCenter → Project
new_project id now params c = record {
  id = id;
  name = params.name;
  description = params.description;
  cost_center_id = params.cost_center_id;
  status = "AVAILABLE";
  created_at = now;
  updated_at = now;
  aws_account_id = c.aws_account_id;
  env_mgmt_role_arn = c.env_mgmt_role_arn;
  hosting_account_handler_role_arn = c.hosting_account_handler_role_arn;
  vpc_id = c.vpc_id;
  subnet_id = c.subnet_id;
  environment_instance_files = c.environment_instance_files;
  encryption_key_arn = c.encryption_key_arn;
  external_id = c.external_id;
  account_id = c.account_id;
}

module _ {W : Type 0} (s : ProjectStore W) where
  abbrev pub checked : Project → Result Project
  checked p = if is_status p.status && s.has_format p then ok p else err (Error.other "ZodError")

  unfoldable pub map_ddb_item_to_project : Item → Result Project
  map_ddb_item_to_project item =
      read_project (with_cost_center item (lookup "dependency" item)) >>? checked

  abbrev pub found_project : Option Item → Result Project
  found_project none = err Error.not_found
  found_project (some item) = map_ddb_item_to_project item

  unfoldable pub get_project : String → Async W Project
  get_project project_id = do item ← s.get_item (project_key project_id); lift (found_project item)

  unfoldable pub get_projects : List String → Async W (List Project)
  get_projects project_ids = do
    items ← s.get_items (map project_key project_ids)
    lift (map_result map_ddb_item_to_project items)

  abbrev pub is_empty : List Item → Bool
  is_empty [] = true
  is_empty (x ∷ xs) = false

  -- Throws where the name is in use.
  unfoldable pub is_project_name_in_use : String → Async W (Unit {0})
  is_project_name_in_use name = do
    items ← s.projects_by_name name
    throw_if (not (is_empty items)) Error.bad_request

  unfoldable pub get_cost_center : String → Async W CostCenter
  get_cost_center id = do
    c ← try_catch (s.get_cost_center id) (λ e. throw Error.bad_request)
    throw_if (not (c.status == "AVAILABLE")) Error.bad_request
    pure c

  abbrev pub store_new : Project → Async W Project
  store_new p =
      try_catch (s.update_item (project_key p.id) (map_to_ddb_item_from_project p))
        (λ e. throw Error.internal)
      >> pure p

  unfoldable pub create_project : (id now : String) → CreateProjectRequest → Async W Project
  create_project id now params = do
    checks ← both (is_project_name_in_use params.name) (get_cost_center params.cost_center_id)
    store_new (new_project id now params checks.1)

  abbrev pub updated : Option Item → Result Project
  updated none = err Error.bad_implementation
  updated (some item) = map_ddb_item_to_project item

  -- The checks of an update: a new name is free, and the project is there.
  abbrev pub check_update : String → Option String → Async W (Unit {0})
  check_update project_id none = get_project project_id >> pure tt
  check_update project_id (some name) =
      if name == ""
      then get_project project_id >> pure tt
      else both (is_project_name_in_use name) (get_project project_id) >> pure tt

  abbrev pub store_update : String → UpdatedValues → Async W Project
  store_update project_id values =
      try_catch
        (do
          item ←
              s.update_item (project_key project_id)
                (attribute_of "name" values.name ++ attribute_of "description" values.description)
          lift (updated item))
        (λ e. throw Error.internal)

  unfoldable pub update_project : String → UpdatedValues → Async W Project
  update_project project_id values = do
    throw_if (not (text_present values.name) && not (text_present values.description))
        Error.bad_request
    check_update project_id values.name
    store_update project_id values

  abbrev pub store_deleted : String → Async W (Unit {0})
  store_deleted project_id =
      try_catch (s.update_item (project_key project_id) deleted_item >> pure tt)
        (λ e. throw Error.internal)

  unfoldable pub soft_delete_project : String → (String → Async W (Unit {0})) → Async W (Unit {0})
  soft_delete_project project_id check_dependencies = do
    check_dependencies project_id
    get_project project_id
    store_deleted project_id

  unfoldable pub does_cost_center_have_projects : String → Async W Bool
  does_cost_center_have_projects id = do
    items ← s.projects_by_cost_center id
    pure (ltb 0 (length items))
