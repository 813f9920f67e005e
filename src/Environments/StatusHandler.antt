-- ===== src/Environments/StatusHandler.antt =====
-- workbench-core/environments/src/handlers/statusHandler.ts: what an event of the event bus does to the
-- status of an environment. The SDK of the hosting account is a parameter.
pub mod Events
pub mod Reports
use Prim.Native.String.{[], ◌∷◌}
use research_service_workben.Base.{
  ℕ, zero, suc, ◌-◌, String, Bool, true, false, not, ◌&&◌, ◌||◌, Option, none, some, List, [], ◌∷◌,
  ◌++◌, if◌then◌else◌, Result, ok, err, Error, Async, pure, throw, lift, ◌>>=◌, ◌>>◌, ◌>>?◌, Dict,
  lookup, ltb, ◌==◌, ◌<>◌, truthy, is_some, lengthen, part,
}
use package.text.Mathlib.Text.{starts_with}
use research_service_workben.Authorization.Models.{Json, text, obj}
use research_service_workben.Environments.Models.{
  Item, Environment, ProjectDependency, is_environment_status, of_dict,
}
use research_service_workben.Environments.Reading.{type_error, text_of}
use research_service_workben.Environments.Service.{
  EnvironmentTable, get_environment, update_environment, add_metadata,
}

pub record EventMetadata : Type 0 where
  pub time : String
  pub account : String
  pub provisioned_product_id : Option String
  pub env_type : Option String
  pub record_id : Option String

pub record RecordOutputKeys : Type 0 where
  pub instance_name : String
  pub instance_arn : String
  pub instance_role_name : String

pub record EventBridgeEventToDdb : Type 0 where
  pub env_id : Option String
  pub instance_id : Option String
  pub status : String
  pub error_msg : Option String
  pub operation : Option String
  pub record_output_keys : Option RecordOutputKeys
  pub metadata : Option EventMetadata

-- The calls of the hosting account's SDK.
pub record HostSdk (W : Type 0) : Type 0 where
  pub disassociate_stack_to_app_registry : (app_registry stack : String) → Async W (Unit {0})
  pub associate_stack_to_app_registry : (app_registry stack : String) → Async W (Unit {0})
  -- The outputs of a record, by their keys.
  pub describe_record : Option String → Async W (Dict String)

pub record StatusHost (W : Type 0) : Type 0 where
  pub table : EnvironmentTable W
  pub get_aws_sdk_for_env_mgmt_role :
      (env_mgmt_role_arn external_id operation : String)
      → (env_type : Option String) → Async W (HostSdk W)
  pub add_role_to_access_point : Environment → (instance_role_arn : String) → Async W (Unit {0})
  pub stack_name : String
  -- `Date.parse`, in milliseconds; `none` is `NaN`
  pub date_parse : String → Option ℕ
  pub to_upper_case : String → String

abbrev size : String → ℕ
size [] = 0
size (c ∷ s) = suc (size s)

-- `s.split(separator)`; `skipped` counts what is left of a separator that was found.
unfoldable pub split_at : (separator : String) → (skipped : ℕ) → String → List String
split_at separator n [] = "" ∷ []
split_at separator (suc n) (c ∷ s) = split_at separator n s
split_at separator zero (c ∷ s) = elim (starts_with (c ∷ s) separator) [
  | true ↦ "" ∷ split_at separator (size separator - 1) s
  | false ↦ lengthen c (split_at separator zero s)
]

-- The id of the environment is what follows `ENV#` in the `sk` of the instance's first item.
abbrev pub env_id_of : List Item → Result String
env_id_of [] = err Error.not_found
env_id_of (item ∷ items) = text_of (lookup "sk" item) >>? λ sk.
    elim (part 1 (split_at "ENV#" zero sk)) [ none ↦ err type_error | some id ↦ ok id ]

abbrev pub same_option : Option String → String → Bool
same_option none s = false
same_option (some a) s = a == s

abbrev pub or_else : Option String → String → String
or_else none d = d
or_else (some s) d = s

abbrev pub later : Option ℕ → Option ℕ → Bool
later (some a) (some b) = ltb b a
later _ _ = false

abbrev pub is_launch : EventBridgeEventToDdb → Bool
is_launch e = same_option e.operation "Launch"

abbrev pub needed : {A : Type 0} → Option A → Result A
needed none = err type_error
needed (some a) = ok a

abbrev pub terminating : EventBridgeEventToDdb → Item
terminating e =
    if e.status == "TERMINATED" then ("resourceType", text "terminated_environment") ∷ [] else []

-- The event names an environment or an instance, and its status is a known one.
abbrev pub concerns : EventBridgeEventToDdb → Bool
concerns e = (is_some e.env_id || is_some e.instance_id) && is_environment_status e.status

module _ {W : Type 0} (h : StatusHost W) where
  -- The status is there already, or the event is older than what is stored, or the launch has not set
  -- the instance yet; a launch itself is never skipped.
  unfoldable pub skips : EventBridgeEventToDdb → EventMetadata → Environment → Bool
  skips e m env =
      (later (h.date_parse env.updated_at) (h.date_parse m.time)
        || env.status == e.status
        || same_option env.instance_id "")
      && not (is_launch e)

  abbrev pub error_type : EventBridgeEventToDdb → String
  error_type e = elim e.operation [
    | none ↦ e.status
    | some o ↦ or_else (truthy (some (h.to_upper_case o))) e.status
  ]

  abbrev pub reported : EventBridgeEventToDdb → Option String → Item
  reported e none = []
  reported e (some m) =
      ("error", obj (of_dict (("type", text (error_type e)) ∷ ("value", text m) ∷ []))) ∷ []

  unfoldable pub update_request : EventBridgeEventToDdb → Item
  update_request e =
      (("status", text e.status) ∷ []) ++ terminating e ++ reported e (truthy e.error_msg)

  abbrev pub stack_of : EventMetadata → Environment → String
  stack_of m env =
      "SC-"
      <> m.account
      <> "-"
      <> or_else (truthy m.provisioned_product_id) env.provisioned_product_id

  abbrev pub app_registry_of : EventMetadata → String
  app_registry_of m = h.stack_name <> "-hosting-account-RSWAppReg-" <> m.account

  unfoldable pub get_env_id : Option String → Async W String
  get_env_id instance_id = do
    items ← h.table.query ("INID#" <> or_else instance_id "undefined")
    lift (env_id_of items)

  abbrev pub event_env_id : EventBridgeEventToDdb → Option String → Async W String
  event_env_id e none = get_env_id e.instance_id
  event_env_id e (some id) = pure id

  abbrev pub leave_app_registry :
      HostSdk W → EventBridgeEventToDdb → EventMetadata → Environment → Async W (Unit {0})
  leave_app_registry sdk e m env = elim (e.status == "TERMINATED") [
    | true ↦ sdk.disassociate_stack_to_app_registry (app_registry_of m) (stack_of m env)
    | false ↦ pure tt
  ]

  abbrev provisioned : Option String → Item
  provisioned none = []
  provisioned (some id) = ("provisionedProductId", text id) ∷ []

  -- The instance of a new environment, and the environment of the instance.
  abbrev add_instance : EventMetadata → (env_id name arn : String) → Async W (Unit {0})
  add_instance m env_id name arn = do
    update_environment h.table env_id
        (provisioned m.provisioned_product_id ++ ("instanceId", text name) ∷ [])
    add_metadata h.table env_id "ENV" name "INID"
        (("id", text env_id) ∷ ("instanceArn", text arn) ∷ [])
    add_metadata h.table name "INID" env_id "ENV"
        (("id", text name) ∷ ("instanceArn", text arn) ∷ ("resourceType", text "instance") ∷ [])

  abbrev launched :
      HostSdk W
      → EventMetadata
      → Environment
      → (env_id : String) → RecordOutputKeys
      → Dict String
      → Async W (Unit {0})
  launched sdk m env env_id keys outputs = do
    name ← lift (needed (lookup keys.instance_name outputs))
    arn ← lift (needed (lookup keys.instance_arn outputs))
    role ← lift (needed (lookup keys.instance_role_name outputs))
    h.add_role_to_access_point env role
    add_instance m env_id name arn
    sdk.associate_stack_to_app_registry (app_registry_of m) (stack_of m env)

  abbrev pub finish_launch :
      Bool
      → HostSdk W
      → EventBridgeEventToDdb
      → EventMetadata
      → Environment
      → (env_id : String) → Async W (Unit {0})
  finish_launch false sdk e m env env_id = pure tt
  finish_launch true sdk e m env env_id = do
    outputs ← sdk.describe_record m.record_id
    keys ← lift (needed e.record_output_keys)
    launched sdk m env env_id keys outputs

  unfoldable pub apply_event :
      EventBridgeEventToDdb → EventMetadata → Environment → (env_id : String) → Async W (Unit {0})
  apply_event e m env env_id = do
    project ← lift (needed env.proj)
    sdk ←
        h.get_aws_sdk_for_env_mgmt_role project.env_mgmt_role_arn project.external_id
          ("StatusHandler-" <> or_else e.operation "undefined") m.env_type
    leave_app_registry sdk e m env
    update_environment h.table env_id (update_request e)
    finish_launch (is_launch e) sdk e m env env_id

  abbrev pub apply_unless :
      Bool
      → EventBridgeEventToDdb
      → EventMetadata
      → Environment
      → (env_id : String) → Async W (Unit {0})
  apply_unless true e m env env_id = pure tt
  apply_unless false e m env env_id = apply_event e m env env_id

  abbrev pub with_environment :
      EventBridgeEventToDdb → (env_id : String) → Environment → Async W (Unit {0})
  with_environment e env_id env =
      lift (needed e.metadata) >>= λ m. apply_unless (skips e m env) e m env env_id

  abbrev pub execute_if : Bool → EventBridgeEventToDdb → Async W (Unit {0})
  execute_if false e = pure tt
  execute_if true e = event_env_id e (truthy e.env_id) >>= λ env_id.
      get_environment h.table env_id true >>= with_environment e env_id

  unfoldable pub execute : EventBridgeEventToDdb → Async W (Unit {0})
  execute e = execute_if (concerns e) e
