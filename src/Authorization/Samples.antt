-- ===== src/Authorization/Samples.antt =====
-- Small instances of what the models leave to other packages: a table of groups, a user directory,
-- a table of permissions, and rules that are matched by action, subject and conditions.
use research_service_workben.Base.{
  String, Bool, true, false, not, ◌&&◌, Option, none, some, List, [], ◌∷◌, ◌++◌, ◌≡◌, refl,
  if◌then◌else◌, ok, err, Error, pure, Dict, lookup, ◌==◌, eq_iff, eq_refl, arith, Bool-cases, inl,
  inr,
}
use research_service_workben.Authorization.Models.{
  Action, create, read, update, delete, AuthenticatedUser, IdentityPermission, DynamicOperation,
  Json, text, num, bool, arr, obj, group, allow,
}
use research_service_workben.Authorization.Casl.{Rule, Request, Casl}
use research_service_workben.Authorization.Groups.{GroupTable, UserManagement}
use research_service_workben.Authorization.Groups.Lifecycle.{IsTable, KeepsView}
use research_service_workben.Authorization.PermissionsPlugin.{DynamicAuthorizationPermissionsPlugin}

-- The status of each group.
abbrev pub Statuses : Type 0
Statuses = String → Option String

abbrev pub view : Statuses → String → Option String
view w k = w k

abbrev pub put : String → Option String → Statuses → Statuses
put k v w j = if k == j then v else w j

abbrev pub table : GroupTable Statuses
table = record {
  get_status = λ k w. (ok (w k), w);
  write_if =
      λ k c v w. if c (w k) then (ok tt, put k v w) else (err Error.conditional_check_failed, w);
}

abbrev pub directory : UserManagement Statuses
directory = record {
  create_role = λ k. pure tt;
  delete_role = λ k. pure tt;
  get_user_roles = λ i. pure [];
  list_users_for_role = λ r p. pure [];
  add_user_to_role = λ i k. pure tt;
  remove_user_from_role = λ i k. pure tt;
  validate_user_roles = λ i ks. pure ks;
}

pub table-IsTable : IsTable table view
table-IsTable = record {
  read_same = λ k w j. refl;
  read-ok = λ k w s e. cc;
  write-ok = λ k c v w e. elim (Bool-cases (c (w k))) [
    | inl h ↦ (h, ground (arith, eq_refl k))
    | inr h ↦ absurd (ground arith)
  ];
  write_failed = λ k c v w e. elim (Bool-cases (c (w k))) [
    | inl h ↦ absurd (e (ground arith))
    | inr h ↦ ground arith
  ];
  write-ne = λ k c v w j ne. ground (arith, eq_iff k j);
}

pub directory-KeepsView : KeepsView directory view
directory-KeepsView = record {
  create_role = λ k w j. refl;
  delete_role = λ k w j. refl;
  get_user_roles = λ k w j. refl;
  list_users_for_role = λ r p w j. refl;
  add_user_to_role = λ i k w j. refl;
  remove_user_from_role = λ i k w j. refl;
  validate_user_roles = λ i ks w j. refl;
}

-- One active group.
abbrev pub researchers_active : Statuses
researchers_active = put "researchers" (some "active") (λ k. none)

abbrev pub alice : AuthenticatedUser
alice = record { id = "alice"; roles = "researchers" ∷ [] }

abbrev action_eq : Action → Action → Bool
action_eq create create = true
action_eq read read = true
action_eq update update = true
action_eq delete delete = true
action_eq _ _ = false

abbrev option_eq : Option String → Option String → Bool
option_eq none none = true
option_eq (some a) (some b) = a == b
option_eq _ _ = false

abbrev holds_value : Json → Option String → Bool
holds_value (text v) (some a) = a == v
holds_value _ _ = false

abbrev holds : Dict Json → Dict String → Bool
holds [] d = true
holds ((k, v) ∷ cs) d = holds_value v (lookup k d) && holds cs d

-- Of a mere type, only a rule that forbids, and has conditions, says nothing.
abbrev holds_of : Bool → Dict Json → Option (Dict String) → Bool
holds_of inverted [] none = true
holds_of inverted (c ∷ cs) none = not inverted
holds_of inverted cs (some d) = holds cs d

abbrev pub matches : Rule → Request → Bool
matches r q =
    action_eq r.action q.action
    && option_eq (some r.subject) q.subject_type
    && holds_of r.inverted r.conditions q.attributes

abbrev decide : Bool → List Rule → Request → Bool
decide b [] q = b
decide b (r ∷ rs) q = decide (if matches r q then not r.inverted else b) rs q

pub decide-append :
    (b : Bool) (rs : List Rule) (r : Rule) (q : Request)
    → decide b (rs ++ r ∷ []) q ≡ (if matches r q then not r.inverted else decide b rs q)
decide-append b [] r q = refl
decide-append b (s ∷ rs) r q = decide-append (if matches s q then not s.inverted else b) rs r q

pub holds-lookup :
    (cs : Dict Json) (d : Dict String) (k v : String)
    → holds cs d ≡ true
    → lookup k cs ≡ some (text v)
    → lookup k d ≡ some v
holds-lookup [] d k v h e = cc
holds-lookup ((j, x) ∷ cs) d k v h e = elim (Bool-cases (j == k)) [
  | inl same ↦ go x (lookup k d) refl (ground arith) (ground (arith, eq_iff j k))
  | inr other ↦ holds-lookup cs d k v (ground arith) (ground arith)
]
  where
    go :
        (x : Json) (a : Option String)
        → lookup k d ≡ a
        → x ≡ text v
        → holds_value x a ≡ true
        → lookup k d ≡ some v
    go (text y) (some a) n e m = ground (arith, eq_iff a y)
    go (text y) none n e m = cc
    go (num y) a n e m = cc
    go (bool y) a n e m = cc
    go (arr y) a n e m = cc
    go (obj y) a n e m = cc

pub matches-conditions_sample :
    (r : Rule) (q : Request) (d : Dict String) (k v : String)
    → q.attributes ≡ some d
    → matches r q ≡ true
    → lookup k r.conditions ≡ some (text v)
    → lookup k d ≡ some v
matches-conditions_sample r q d k v has m e =
    holds-lookup r.conditions d k v (ground (arith, has)) e

abbrev pub casl : Casl
casl = record {
  matches = matches;
  can = decide false;
  can-nil = λ q. refl;
  can-append = decide-append false;
  matches-conditions = matches-conditions_sample;
}

-- The researchers may read the data set `d1`.
abbrev pub may_read : IdentityPermission
may_read = record {
  identity_type = group;
  identity_id = "researchers";
  effect = allow;
  action = read;
  subject_type = "Dataset";
  subject_id = "d1";
  fields = none;
  conditions = none;
  description = none;
}

abbrev pub read_d1 : DynamicOperation
read_d1 = record {
  action = read;
  subject = ("subjectType", "Dataset") ∷ ("subjectId", "d1") ∷ [];
  field = none;
}

-- The operation of the route `/datasets/:id`.
abbrev pub read_by_id : DynamicOperation
read_by_id = record read_d1 { subject = ("subjectType", "Dataset") ∷ ("subjectId", "${id}") ∷ [] }

abbrev pub permissions : DynamicAuthorizationPermissionsPlugin Statuses
permissions = record {
  is_route_ignored = λ route method. pure false;
  is_route_protected = λ route method. pure true;
  get_dynamic_operations_by_route = λ route method.
      pure (record { dynamic_operations = read_by_id ∷ []; path_params = ("id", "d1") ∷ [] });
  get_identity_permissions_by_identity =
      λ q. pure (record { items = may_read ∷ []; pagination_token = none });
  get_identity_permissions_by_subject = λ q. pure (record {
    items = if q.subject_id == "d1" then may_read ∷ [] else [];
    pagination_token = none;
  });
  create_identity_permissions = λ ps. pure ps;
  delete_identity_permissions = λ ps. pure ps;
  delete_subject_identity_permissions = λ fuel subject_type subject_id. pure [];
}
