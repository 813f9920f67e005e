-- ===== src/Datasets/Permissions/Level.antt =====
-- What the responses say of an identity, in whatever order its permissions come.
use research_service_workben.Base.{
  String, Bool, true, false, ◌&&◌, Option, none, some, List, [], ◌∷◌, ◌≡◌, refl, sym, ap, ◌∙◌, inl,
  inr, if◌then◌else◌, ok, arith, any, ◌==◌, eq_iff, Bool-cases,
}
use research_service_workben.Authorization.Models.{
  Action, create, read, update, delete, IdentityPermission,
}
use research_service_workben.Authorization.Keys.{identity_type_text}
use research_service_workben.Datasets.Models.{DataSetPermission, PermissionsResponse}
use research_service_workben.Datasets.Permissions.{
  level_of_action, is_update, is_of, raised, merge, add_to_response, add_all,
  identity_permissions_to_permissions_response,
}

-- A permission for the identity `id` of the type `t`.
abbrev pub holds_for : String → String → DataSetPermission → Bool
holds_for id t p = p.identity == id && p.identity_type == t

-- The level that the first such permission has.
abbrev pub level_in : String → String → List DataSetPermission → Option String
level_in id t [] = none
level_in id t (p ∷ ps) = if holds_for id t p then some p.access_level else level_in id t ps

abbrev pub level_on : String → String → String → List PermissionsResponse → Option String
level_on data_set id t [] = none
level_on data_set id t (r ∷ rs) =
    if r.data_set_id == data_set then level_in id t r.permissions else level_on data_set id t rs

-- An identity permission on the data set for the identity.
abbrev pub concerns : String → String → String → IdentityPermission → Bool
concerns data_set id t i =
    i.subject_id == data_set && i.identity_id == id && identity_type_text i.identity_type == t

-- The description of the level: read-write if there is an UPDATE, else read-only if there is any
-- permission, else none.
abbrev pub granted : String → String → String → List IdentityPermission → Option String
granted data_set id t is =
    if any (λ i. concerns data_set id t i && is_update i.action) is
    then some "read-write"
    else if any (concerns data_set id t) is
    then some "read-only"
    else none

-- A level that is one of the two, or none.
abbrev join : Option String → Action → Option String
join none a = some (level_of_action a)
join (some l) a = if l == "read-only" && is_update a then some "read-write" else some l

abbrev is_for : String → String → IdentityPermission → Bool
is_for id t i = i.identity_id == id && identity_type_text i.identity_type == t

is_of-same :
    (id t : String) (i : IdentityPermission) (p : DataSetPermission)
    → is_of i p ≡ true
    → holds_for id t p ≡ is_for id t i
is_of-same id t i p h =
    let a = (eq_iff p.identity i.identity_id).0 (ground arith) in
    let b = (eq_iff p.identity_type (identity_type_text i.identity_type)).0 (ground arith) in
    ap (λ x. x == id && p.identity_type == t) a ∙ ap (λ x. i.identity_id == id && x == t) b

is_of-apart :
    (id t : String) (i : IdentityPermission) (p : DataSetPermission)
    → is_of i p ≡ false
    → holds_for id t p ≡ true
    → is_for id t i ≡ false
is_of-apart id t i p h k =
    let a = (eq_iff p.identity id).0 (ground arith) in
    let b = (eq_iff p.identity_type t).0 (ground arith) in
    let moved : is_of i p ≡ (id == i.identity_id && t == identity_type_text i.identity_type) =
      ap (λ x. x == i.identity_id && p.identity_type == identity_type_text i.identity_type) a
      ∙ ap (λ x. id == i.identity_id && x == identity_type_text i.identity_type) b in
    ground (
      arith,
      moved,
      eq_iff i.identity_id id,
      eq_iff id i.identity_id,
      eq_iff (identity_type_text i.identity_type) t,
      eq_iff t (identity_type_text i.identity_type),
    )

holds_for-raised :
    (id t : String) (i : IdentityPermission) (p : DataSetPermission)
    → holds_for id t (raised i p) ≡ holds_for id t p
holds_for-raised id t i p =
    elim (Bool-cases (p.access_level == "read-only" && is_update i.action)) [
      | inl e ↦ rw e refl
      | inr e ↦ rw e refl
    ]

level-raised :
    (i : IdentityPermission) (p : DataSetPermission)
    → some (raised i p).access_level ≡ join (some p.access_level) i.action
level-raised i p = elim (Bool-cases (p.access_level == "read-only" && is_update i.action)) [
  | inl e ↦ rw e refl
  | inr e ↦ rw e refl
]

level_in-merge :
    (id t : String) (i : IdentityPermission) (ps : List DataSetPermission)
    → level_in id t (merge i ps)
      ≡ (if is_for id t i then join (level_in id t ps) i.action else level_in id t ps)
unfolding merge
level_in-merge id t i [] = refl
level_in-merge id t i (p ∷ ps) = elim (Bool-cases (is_of i p)) [
  | inl e ↦
      rw (e, holds_for-raised id t i p, level-raised i p, is_of-same id t i p e)
        (elim (Bool-cases (is_for id t i)) [ inl f ↦ rw f refl | inr f ↦ rw f refl ])
  | inr e ↦ elim (Bool-cases (holds_for id t p)) [
    | inl f ↦ rw (e, f, is_of-apart id t i p e f) refl
    | inr f ↦ rw (e, f) (level_in-merge id t i ps)
  ]
]

other-data_set :
    (i : IdentityPermission) (s d : String)
    → (s == i.subject_id) ≡ false
    → (s == d) ≡ true
    → (i.subject_id == d) ≡ false
other-data_set i s d h k =
    let same = (eq_iff s d).0 k in
    let moved = ap (λ x. x == i.subject_id) same in
    ground (arith, moved, eq_iff i.subject_id d, eq_iff d i.subject_id)

level_on-add :
    (d id t : String) (i : IdentityPermission) (rs : List PermissionsResponse)
    → level_on d id t (add_to_response i rs)
      ≡ (if concerns d id t i then join (level_on d id t rs) i.action else level_on d id t rs)
unfolding add_to_response
level_on-add d id t i [] = elim (Bool-cases (i.subject_id == d)) [
  | inl e ↦ rw e refl
  | inr e ↦ rw e refl
]
level_on-add d id t i (r ∷ rs) = elim (Bool-cases (r.data_set_id == i.subject_id)) [
  | inl e ↦
      let same = ap (λ x. x == d) ((eq_iff r.data_set_id i.subject_id).0 e) in
      elim (Bool-cases (i.subject_id == d)) [
        | inl f ↦ rw (e, same, f) (level_in-merge id t i r.permissions)
        | inr f ↦ rw (e, same, f) refl
      ]
  | inr e ↦ elim (Bool-cases (r.data_set_id == d)) [
    | inl f ↦ rw (e, f, other-data_set i r.data_set_id d e f) refl
    | inr f ↦ rw (e, f) (level_on-add d id t i rs)
  ]
]

-- What a list of permissions adds to a level.
abbrev joined : String → String → String → Option String → List IdentityPermission → Option String
joined d id t l [] = l
joined d id t l (i ∷ is) = joined d id t (if concerns d id t i then join l i.action else l) is

level_on-add_all :
    (d id t : String) (is : List IdentityPermission) (rs : List PermissionsResponse)
    → level_on d id t (add_all is rs) ≡ joined d id t (level_on d id t rs) is
unfolding add_all
level_on-add_all d id t [] rs = refl
level_on-add_all d id t (i ∷ is) rs =
    level_on-add_all d id t is (add_to_response i rs)
    ∙ ap (λ l. joined d id t l is) (level_on-add d id t i rs)

-- Read-write stays, and read-only is raised by an UPDATE.
joined-write :
    (d id t : String) (is : List IdentityPermission)
    → joined d id t (some "read-write") is ≡ some "read-write"
joined-write d id t [] = refl
joined-write d id t (i ∷ is) = elim (Bool-cases (concerns d id t i)) [
  | inl e ↦ rw e (joined-write d id t is)
  | inr e ↦ rw e (joined-write d id t is)
]

joined-read :
    (d id t : String) (is : List IdentityPermission)
    → joined d id t (some "read-only") is ≡ (
        if any (λ i. concerns d id t i && is_update i.action) is
        then some "read-write"
        else some "read-only")
joined-read d id t [] = refl
joined-read d id t (i ∷ is) = elim (Bool-cases (concerns d id t i)) [
  | inl e ↦ elim (Bool-cases (is_update i.action)) [
    | inl f ↦ rw (e, f) (joined-write d id t is)
    | inr f ↦ rw (e, f) (joined-read d id t is)
  ]
  | inr e ↦ rw e (joined-read d id t is)
]

level_of_action-update : (a : Action) → is_update a ≡ true → level_of_action a ≡ "read-write"
level_of_action-update update h = refl
level_of_action-update create h = cc
level_of_action-update read h = cc
level_of_action-update delete h = cc

level_of_action-other : (a : Action) → is_update a ≡ false → level_of_action a ≡ "read-only"
level_of_action-other update h = cc
level_of_action-other create h = refl
level_of_action-other read h = refl
level_of_action-other delete h = refl

joined-none :
    (d id t : String) (is : List IdentityPermission) → joined d id t none is ≡ granted d id t is
joined-none d id t [] = refl
joined-none d id t (i ∷ is) = elim (Bool-cases (concerns d id t i)) [
  | inl e ↦ elim (Bool-cases (is_update i.action)) [
    | inl f ↦ rw (e, f, level_of_action-update i.action f) (joined-write d id t is)
    | inr f ↦ rw (e, f, level_of_action-other i.action f) (joined-read d id t is)
  ]
  | inr e ↦ rw e (joined-none d id t is)
]

-- Where identity permissions are accepted as permissions on data sets, the responses give each
-- identity on each data set the level that the description reads off them, in whatever order they
-- come and however often: read-write with an UPDATE among them, else read-only, else none.
pub permissions_response-granted :
    (is : List IdentityPermission) (rs : List PermissionsResponse) (data_set id t : String)
    → identity_permissions_to_permissions_response is ≡ ok rs
    → level_on data_set id t rs ≡ granted data_set id t is
unfolding identity_permissions_to_permissions_response
permissions_response-granted is rs d id t h =
    let built : add_all is [] ≡ rs = ground (arith, h) in
    ap (λ l. level_on d id t l) (sym built)
    ∙ (level_on-add_all d id t is [] ∙ joined-none d id t is)
