-- ===== src/Authorization/Service.antt =====
-- What the service of
-- workbench-core/authorization/src/dynamicAuthorization/dynamicAuthorizationService.ts is made of: its
-- plugins, the audit of a call, and the parameters of a route's operations. `escape_reg_exp` is lodash's.
use research_service_workben.Base.{
  ℕ, String, Option, none, some, List, [], ◌∷◌, ◌++◌, if◌then◌else◌, Result, ok, err, Error, Async,
  ◌>>?◌, map_result, Dict, lookup, includes, ◌==◌,
}
use research_service_workben.Audit.{Metadata, audited}
use research_service_workben.Authorization.Models.{
  AuthenticatedUser, Identity, IdentityType, group, user, IdentityPermission, DynamicOperation,
}
use research_service_workben.Authorization.Casl.{Casl}
use research_service_workben.Authorization.Template.{replace_params}
use research_service_workben.Authorization.GroupPlugin.{GroupManagementPlugin}
use research_service_workben.Authorization.PermissionsPlugin.{DynamicAuthorizationPermissionsPlugin}

-- The service's plugins, and the functions of other packages that it calls.
pub record Plugins (W : Type 0) : Type 0 where
  pub groups : GroupManagementPlugin W
  pub permissions : DynamicAuthorizationPermissionsPlugin W
  pub casl : Casl
  pub write : Metadata → Async W (Unit {0})
  pub escape_reg_exp : String → String

abbrev pub wildcard_subject_id : String
wildcard_subject_id = "*"

abbrev pub with_status : AuthenticatedUser → String → ℕ → Metadata
with_status u name code = record { actor = u; action = name; status_code = some code }

abbrev pub group_identity : String → Identity
group_identity id = record { identity_type = group; identity_id = id }

abbrev pub user_identity : String → Identity
user_identity id = record { identity_type = user; identity_id = id }

-- `new Set()` and `add`, in the order of insertion
abbrev add_new : String → List String → List String
add_new x seen = if includes x seen then seen else seen ++ x ∷ []

unfoldable pub add_group : IdentityType → String → List String → List String
add_group group id seen = add_new id seen
add_group user id seen = seen

-- The ids of the groups among the permissions, each once.
unfoldable pub group_ids_from : List String → List IdentityPermission → List String
group_ids_from seen [] = seen
group_ids_from seen (p ∷ ps) = group_ids_from (add_group p.identity_type p.identity_id seen) ps

-- `{ ...pathParams, ...params }`, read at a key; an absent or empty value is missing.
abbrev param_value : (String → String) → Option String → Result String
param_value escape none = err Error.param_not_found
param_value escape (some v) = if v == "" then err Error.param_not_found else ok (escape v)

abbrev pub first_some {ℓ} : {A : Type ℓ} → Option A → Option A → Option A
first_some none o = o
first_some (some a) o = some a

abbrev pub combined : (String → String) → Dict String → Dict String → String → Result String
combined escape path_params params key =
    param_value escape (first_some (lookup key params) (lookup key path_params))

-- The entries of a subject with their variables replaced.
unfoldable pub inject_params : (String → Result String) → Dict String → Result (Dict String)
inject_params value =
    map_result (λ (e : String × String). replace_params value e.1 >>? λ v. ok (e.0, v))

unfoldable pub inject_operation :
    (String → Result String) → DynamicOperation → Result DynamicOperation
inject_operation value op = inject_params value op.subject >>? λ s. ok (record op { subject = s })

abbrev text_or_empty : Option String → String
text_or_empty none = ""
text_or_empty (some s) = s

abbrev pub subject_id_of : DynamicOperation → String
subject_id_of op = text_or_empty (lookup "subjectId" op.subject)

abbrev pub subject_type_of : DynamicOperation → String
subject_type_of op = text_or_empty (lookup "subjectType" op.subject)

-- `try { … }` with an audit entry of status 200, or 400 where it throws.
unfoldable pub with_audit :
    {W A : Type 0} → Plugins W → AuthenticatedUser → String → Async W A → Async W A
unfolding audited
with_audit s u name body = audited s.write (with_status u name 200) (with_status u name 400) body
