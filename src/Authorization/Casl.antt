-- ===== src/Authorization/Casl.antt =====
-- workbench-core/authorization/src/caslAuthorizationPlugin.ts. The package @casl/ability is the
-- parameter `Casl`: which rules match a request, and that the last matching rule decides.
pub mod Deny
use research_service_workben.Base.{
  String, Bool, true, false, not, Option, none, some, List, [], ◌∷◌, ◌++◌, map, ◌≡◌, if◌then◌else◌,
  Result, ok, err, Error, keep, Dict, lookup, ◌==◌, ◌>>?◌,
}
use research_service_workben.Authorization.Models.{
  Action, Effect, allow, deny, Json, text, Permission, Operation, DynamicOperation,
  IdentityPermission,
}

-- A rule that `can` (not inverted) or `cannot` (inverted) adds to an AbilityBuilder.
pub record Rule : Type 0 where
  pub inverted : Bool
  pub action : Action
  pub subject : String
  pub fields : Option (List String)
  pub conditions : Dict Json

-- What `throwUnlessCan` is asked; `attributes` is `none` for a subject that is a mere type.
pub record Request : Type 0 where
  pub action : Action
  pub subject_type : Option String
  pub attributes : Option (Dict String)
  pub field : Option String

pub record Casl : Type 0 where
  pub matches : Rule → Request → Bool
  pub can : List Rule → Request → Bool
  -- No rule: nothing is allowed. Else the rule that was added last and matches decides.
  pub can-nil : (q : Request) → can [] q ≡ false
  pub can-append :
      (rs : List Rule) (r : Rule) (q : Request)
      → can (rs ++ r ∷ []) q ≡ (if matches r q then not r.inverted else can rs q)
  -- A condition that is a text holds of a subject with attributes only if its attribute is that text.
  -- (A subject that is a mere type is another matter: there a rule with conditions may match.)
  pub matches-conditions :
      (r : Rule) (q : Request) (d : Dict String) (k v : String)
      → q.attributes ≡ some d
      → matches r q ≡ true
      → lookup k r.conditions ≡ some (text v)
      → lookup k d ≡ some v

-- `{ ...d, k: v }`
abbrev pub assign {ℓ} : {V : Type ℓ} → String → V → Dict V → Dict V
assign k v [] = (k, v) ∷ []
assign k v ((j, w) ∷ d) = if j == k then (k, v) ∷ d else (j, w) ∷ assign k v d

-- `_.omit(d, k)`
abbrev pub omit {ℓ} : {V : Type ℓ} → String → Dict V → Dict V
omit k [] = []
omit k ((j, w) ∷ d) = if j == k then omit k d else (j, w) ∷ omit k d

abbrev pub is_allow : Effect → Bool
is_allow allow = true
is_allow deny = false

abbrev pub is_deny : Effect → Bool
is_deny allow = false
is_deny deny = true

-- The rule of a permission, by `can` or by `cannot`.
unfoldable pub permission_rule : Bool → Permission → Rule
permission_rule inverted p = record {
  inverted = inverted;
  action = p.action;
  subject = p.subject;
  fields = p.fields;
  conditions = [];
}

abbrev given_conditions : Option (Dict Json) → Dict Json
given_conditions none = []
given_conditions (some d) = d

unfoldable pub identity_conditions : IdentityPermission → Dict Json
identity_conditions p =
    if p.subject_id == "*"
    then given_conditions p.conditions
    else assign "subjectId" (text p.subject_id) (given_conditions p.conditions)

unfoldable pub identity_rule : Bool → IdentityPermission → Rule
identity_rule inverted p = record {
  inverted = inverted;
  action = p.action;
  subject = p.subject_type;
  fields = p.fields;
  conditions = identity_conditions p;
}

unfoldable pub define_abilities_for_user_permissions : List Permission → List Rule
define_abilities_for_user_permissions ps =
    map (permission_rule false) (keep (λ p. is_allow p.effect) ps)
    ++ map (permission_rule true) (keep (λ p. is_deny p.effect) ps)

unfoldable pub define_abilities_for_identity_permissions : List IdentityPermission → List Rule
define_abilities_for_identity_permissions ps =
    map (identity_rule false) (keep (λ p. is_allow p.effect) ps)
    ++ map (identity_rule true) (keep (λ p. is_deny p.effect) ps)

unfoldable pub operation_request : Operation → Request
operation_request op = record {
  action = op.action;
  subject_type = some op.subject;
  attributes = none;
  field = op.field;
}

unfoldable pub dynamic_request : DynamicOperation → Request
dynamic_request op = record {
  action = op.action;
  subject_type = lookup "subjectType" op.subject;
  attributes = some (omit "subjectType" op.subject);
  field = op.field;
}

module _ (c : Casl) where
  -- `forEach(op => throwUnlessCan(op))`, its error turned into a ForbiddenError
  unfoldable pub throw_unless_can : List Rule → List Request → Result (Unit {0})
  throw_unless_can rules [] = ok tt
  throw_unless_can rules (q ∷ qs) =
      if c.can rules q then throw_unless_can rules qs else err Error.forbidden

  unfoldable pub is_authorized : List Permission → List Operation → Result (Unit {0})
  is_authorized ps ops =
      throw_unless_can (define_abilities_for_user_permissions ps) (map operation_request ops)

  unfoldable pub is_authorized_on_dynamic_operations :
      List IdentityPermission → List DynamicOperation → Result (Unit {0})
  is_authorized_on_dynamic_operations ps ops =
      throw_unless_can (define_abilities_for_identity_permissions ps) (map dynamic_request ops)
