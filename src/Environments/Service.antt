-- ===== src/Environments/Service.antt =====
-- workbench-core/environments/src/services/environmentService.ts. The table is a parameter, and so are
-- a new id and the time. The lists of environments are in Environments/Listing.
pub mod Guards
use research_service_workben.Base.{
  String, Bool, true, false, Option, List, [], ◌∷◌, Error, Async, pure, throw, throw_if, lift,
  try_catch, ◌>>=◌, ◌>>◌, ◌==◌, ◌<>◌,
}
use research_service_workben.Authorization.Models.{AuthenticatedUser}
use research_service_workben.Environments.Items.{
  Key, build_dynamo_db_key, build_dynamo_db_pk_sk, CreateEnvironmentRequest, items_to_get,
  check_metadata, items_of,
}
use research_service_workben.Environments.Reading.{
  joined_items, found_environment, updated_environment,
}
use research_service_workben.Environments.Models.{Item, Environment}

-- The calls of the service DynamoDBService that this service makes.
pub record EnvironmentTable (W : Type 0) : Type 0 where
  pub get_item : Key → Async W (Option Item)
  pub get_items : List Key → Async W (List Item)
  -- All items under a `pk`.
  pub query : String → Async W (List Item)
  -- Sets attributes; returns the item's attributes.
  pub update_item : Key → Item → Async W (Option Item)
  pub delete_item : Key → Async W (Unit {0})
  -- One transaction.
  pub put_items : List Item → Async W (Unit {0})
  -- At most one environment that depends on the id.
  pub environments_by_dependency : String → Async W (List Item)

abbrev pub is_terminated : Environment → Bool
is_terminated e = e.status == "TERMINATED"

module _ {W : Type 0} (t : EnvironmentTable W) where
  unfoldable pub get_environment : String → (include_metadata : Bool) → Async W Environment
  get_environment env_id false = do
    item ← t.get_item (build_dynamo_db_pk_sk env_id "ENV")
    lift (found_environment item)
  get_environment env_id true = do
    items ← t.query (build_dynamo_db_key env_id "ENV")
    lift (joined_items env_id items)

  -- The error of an absent environment is thrown anew, with a message of its own.
  abbrev pub check_active : String → Async W (Unit {0})
  check_active env_id =
      try_catch (get_environment env_id false >>= λ e. throw_if (is_terminated e) Error.bad_request)
        (λ e. throw e)

  unfoldable pub update_environment : String → Item → Async W Environment
  update_environment env_id values = do
    check_active env_id
    item ← t.update_item (build_dynamo_db_pk_sk env_id "ENV") values
    lift (updated_environment item)

  abbrev pub store_environment :
      (id now : String)
      → CreateEnvironmentRequest
      → AuthenticatedUser
      → Item × Item × List Item
      → Async W Environment
  store_environment id now p u (etc, project, datasets) =
      try_catch (t.put_items (items_of id now p u etc project datasets)) (λ e. throw Error.internal)
      >> get_environment id true

  unfoldable pub create_environment :
      (id now : String) → CreateEnvironmentRequest → AuthenticatedUser → Async W Environment
  create_environment id now p u = do
    items ← t.get_items (items_to_get p)
    found ← lift (check_metadata p items)
    store_environment id now p u found

  unfoldable pub add_metadata :
      (pk_id pk_type meta_id meta_type : String) → Item → Async W (Unit {0})
  add_metadata pk_id pk_type meta_id meta_type values =
      t.update_item
        (record {
          pk = build_dynamo_db_key pk_id pk_type;
          sk = build_dynamo_db_key meta_id meta_type;
        })
        values
      >> pure tt

  -- The key under which the mount of a data set's endpoint is kept with the project.
  abbrev pub relationship_key : (project_id dataset_id endpoint_id : String) → Key
  relationship_key project_id dataset_id endpoint_id = record {
    pk = build_dynamo_db_key project_id "PROJ";
    sk = build_dynamo_db_key dataset_id "DATASET" <> build_dynamo_db_key endpoint_id "ENDPOINT";
  }

  unfoldable pub store_project_dataset_endpoint_relationship :
      (project_id dataset_id endpoint_id : String) → Async W (Unit {0})
  store_project_dataset_endpoint_relationship project_id dataset_id endpoint_id =
      t.update_item (relationship_key project_id dataset_id endpoint_id) [] >> pure tt

  unfoldable pub remove_project_dataset_endpoint_relationship :
      (project_id dataset_id endpoint_id : String) → Async W (Unit {0})
  remove_project_dataset_endpoint_relationship project_id dataset_id endpoint_id =
      t.delete_item (relationship_key project_id dataset_id endpoint_id)

  abbrev some_item : List Item → Bool
  some_item [] = false
  some_item (x ∷ xs) = true

  unfoldable pub does_dependency_have_environments : String → Async W Bool
  does_dependency_have_environments id = do
    items ← t.environments_by_dependency id
    pure (some_item items)
