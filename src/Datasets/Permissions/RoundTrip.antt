-- ===== src/Datasets/Permissions/RoundTrip.antt =====
-- The permissions on a data set as identity permissions, and read back from them.
use mathlib.Core.Path.{subst}
use mathlib.Core.List.{append_assoc, append-nil}
use research_service_workben.Base.{
  String, Bool, true, false, not, ◌&&◌, none, List, [], ◌∷◌, ◌++◌, ◌≡◌, refl, sym, ap, ◌∙◌, inl,
  inr, if◌then◌else◌, ok, arith, any, All, ◌==◌, eq_iff, eq_refl, Bool-cases, ◌>>?◌,
}
use research_service_workben.Authorization.Models.{Action, read, update, IdentityPermission}
use research_service_workben.Authorization.Keys.{identity_type_text}
use research_service_workben.Datasets.Models.{DataSetPermission, PermissionsResponse}
use research_service_workben.Datasets.Permissions.{
  type_of, is_level, is_identity_type, allowing, expand, expand_all,
  data_set_permission_to_identity_permissions, is_read_or_update, is_allowing, new_permission,
  is_of, raised, merge, add_to_response, add_all, identity_permissions_to_permissions_response,
}

-- A permission that a request may hold.
pub record IsValid (p : DataSetPermission) : Type 0 where
  pub level : is_level p.access_level ≡ true
  pub type_known : is_identity_type p.identity_type ≡ true

abbrev same_identity : DataSetPermission → DataSetPermission → Bool
same_identity p q = q.identity == p.identity && q.identity_type == p.identity_type

-- No two permissions are for the same identity.
abbrev pub Distinct : List DataSetPermission → Type 0
Distinct [] = Unit
Distinct (p ∷ ps) = All (λ q. same_identity q p ≡ false) ps × Distinct ps

abbrev response : String → List DataSetPermission → PermissionsResponse
response id ps = record { data_set_id = id; permissions = ps; page_token = none }

identity_type_text-type_of :
    (t : String) → is_identity_type t ≡ true → identity_type_text (type_of t) ≡ t
identity_type_text-type_of t h = elim (Bool-cases (t == "GROUP")) [
  | inl e ↦ rw e (sym ((eq_iff t "GROUP").0 e))
  | inr e ↦ rw e (sym ((eq_iff t "USER").0 (ground arith)))
]

merge-append :
    (i : IdentityPermission) (ps : List DataSetPermission)
    → All (λ q. is_of i q ≡ false) ps
    → merge i ps ≡ ps ++ new_permission i ∷ []
unfolding merge
merge-append i [] h = refl
merge-append i (p ∷ ps) (h, hs) = rw h (ap (λ l. p ∷ l) (merge-append i ps hs))

merge-last :
    (i : IdentityPermission) (ps : List DataSetPermission) (p : DataSetPermission)
    → All (λ q. is_of i q ≡ false) ps
    → is_of i p ≡ true
    → merge i (ps ++ p ∷ []) ≡ ps ++ raised i p ∷ []
unfolding merge
merge-last i [] p h e = rw e refl
merge-last i (q ∷ ps) p (h, hs) e = rw h (ap (λ l. q ∷ l) (merge-last i ps p hs e))

add_to_response_same :
    (i : IdentityPermission) (id : String) (ps : List DataSetPermission)
    → i.subject_id ≡ id
    → add_to_response i (response id ps ∷ []) ≡ response id (merge i ps) ∷ []
unfolding add_to_response
add_to_response_same i id ps e = let same = ap (λ x. id == x) e ∙ eq_refl id in rw same refl

add_all-append :
    (is js : List IdentityPermission) (rs : List PermissionsResponse)
    → add_all (is ++ js) rs ≡ add_all js (add_all is rs)
unfolding add_all
add_all-append [] js rs = refl
add_all-append (i ∷ is) js rs = add_all-append is js (add_to_response i rs)

apart :
    (id l : String) (a : Action) (p : DataSetPermission) (qs : List DataSetPermission)
    → is_identity_type p.identity_type ≡ true
    → All (λ q. same_identity p q ≡ false) qs
    → All (λ q. is_of (allowing id p a l) q ≡ false) qs
apart id l a p [] h k = tt
apart id l a p (q ∷ qs) h (k, ks) = (
  ap (λ t. q.identity == p.identity && q.identity_type == t)
        (identity_type_text-type_of p.identity_type h)
      ∙ k,
  apart id l a p qs h ks,
)

permission_eq :
    (p : DataSetPermission) (t l : String)
    → t ≡ p.identity_type
    → l ≡ p.access_level
    → ◌≡◌ {A = DataSetPermission}
        (record { identity = p.identity; identity_type = t; access_level = l })
        p
permission_eq p t l e f =
    λ j. record { identity = p.identity; identity_type = e j; access_level = f j }

module _ (id : String) (qs : List DataSetPermission) (p : DataSetPermission) (valid : IsValid p)
    (h : All (λ q. same_identity p q ≡ false) qs) where
  abbrev reading : IdentityPermission
  reading = allowing id p read p.access_level

  abbrev updating : IdentityPermission
  updating = allowing id p update "read-write"

  type_same : identity_type_text (type_of p.identity_type) ≡ p.identity_type
  type_same = identity_type_text-type_of p.identity_type valid.type_known

  add-reading :
      add_to_response reading (response id qs ∷ [])
      ≡ response id (qs ++ new_permission reading ∷ []) ∷ []
  add-reading =
      add_to_response_same reading id qs refl
      ∙ ap (λ l. response id l ∷ [])
          (merge-append reading qs (apart id p.access_level read p qs valid.type_known h))

  add-updating :
      p.access_level ≡ "read-write"
      → add_to_response updating (response id (qs ++ new_permission reading ∷ []) ∷ [])
        ≡ response id (qs ++ p ∷ []) ∷ []
  add-updating e =
      add_to_response_same updating id (qs ++ new_permission reading ∷ []) refl
      ∙ (ap (λ l. response id l ∷ [])
            (merge-last updating qs (new_permission reading)
              (apart id "read-write" update p qs valid.type_known h)
              (rw (eq_refl p.identity, eq_refl (identity_type_text (type_of p.identity_type)))
                refl))
          ∙ ap (λ l. response id (qs ++ l ∷ []) ∷ [])
              (permission_eq p (identity_type_text (type_of p.identity_type)) "read-write" type_same
                (sym e)))

  -- One permission, added to those of other identities.
  add_all-expand : add_all (expand id p) (response id qs ∷ []) ≡ response id (qs ++ p ∷ []) ∷ []
  unfolding add_all
  add_all-expand = elim (Bool-cases (p.access_level == "read-write")) [
    | inl e ↦ rw e (
        ap (add_to_response updating) add-reading
        ∙ add-updating ((eq_iff p.access_level "read-write").0 e))
    | inr e ↦
        let ro = (eq_iff p.access_level "read-only").0 (ground (arith, valid.level)) in
        rw e (
          add-reading
          ∙ ap (λ l. response id (qs ++ l ∷ []) ∷ [])
              (permission_eq p (identity_type_text (type_of p.identity_type)) "read-only" type_same
                (sym ro)))
  ]

Distinct-apart :
    (qs : List DataSetPermission) (p : DataSetPermission) (ps : List DataSetPermission)
    → Distinct (qs ++ p ∷ ps)
    → All (λ q. same_identity p q ≡ false) qs
Distinct-apart [] p ps h = tt
Distinct-apart (q ∷ qs) p ps (new, h) = (middle qs new, Distinct-apart qs p ps h)
  where
    middle :
        (xs : List DataSetPermission)
        → All (λ x. same_identity x q ≡ false) (xs ++ p ∷ ps)
        → same_identity p q ≡ false
    middle [] (k, ks) = k
    middle (x ∷ xs) (k, ks) = middle xs ks

add_all-expand_all :
    (id : String) (qs ps : List DataSetPermission)
    → All IsValid ps
    → Distinct (qs ++ ps)
    → add_all (expand_all id ps) (response id qs ∷ []) ≡ response id (qs ++ ps) ∷ []
unfolding expand_all add_all
add_all-expand_all id qs [] valid h = ap (λ l. response id l ∷ []) (sym (append-nil qs))
add_all-expand_all id qs (p ∷ ps) (v, vs) h =
    add_all-append (expand id p) (expand_all id ps) (response id qs ∷ [])
    ∙ (ap (add_all (expand_all id ps)) (add_all-expand id qs p v (Distinct-apart qs p ps h))
        ∙ (add_all-expand_all id (qs ++ p ∷ []) ps vs
              (subst Distinct (sym (append_assoc qs (p ∷ []) ps)) h)
            ∙ ap (λ l. response id l ∷ []) (append_assoc qs (p ∷ []) ps)))

expand_all-accepted :
    (id : String) (ps : List DataSetPermission)
    → (any (λ i. not (is_read_or_update i.action)) (expand_all id ps) ≡ false)
      × (any (λ i. not (is_allowing i.effect)) (expand_all id ps) ≡ false)
unfolding expand_all
expand_all-accepted id [] = (refl, refl)
expand_all-accepted id (p ∷ ps) = elim (Bool-cases (p.access_level == "read-write")) [
  | inl e ↦ rw e (expand_all-accepted id ps)
  | inr e ↦ rw e (expand_all-accepted id ps)
]

request-accepted :
    (ps : List DataSetPermission)
    → All IsValid ps
    → (any (λ p. not (is_level p.access_level)) ps ≡ false)
      × (any (λ p. not (is_identity_type p.identity_type)) ps ≡ false)
request-accepted [] h = (refl, refl)
request-accepted (p ∷ ps) (v, vs) =
    let (a, b) = request-accepted ps vs in (rw v.level a, rw v.type_known b)

first_response :
    (id : String) (i : IdentityPermission)
    → i.subject_id ≡ id
    → add_to_response i (response id [] ∷ []) ≡ add_to_response i []
unfolding add_to_response merge
first_response id i e =
    let same = ap (λ x. id == x) e ∙ eq_refl id in
    rw same (ap (λ x. response x (new_permission i ∷ []) ∷ []) (sym e))

-- The first permission starts the response.
started :
    (id : String) (p : DataSetPermission) (ps : List DataSetPermission)
    → add_all (expand_all id (p ∷ ps)) [] ≡ add_all (expand_all id (p ∷ ps)) (response id [] ∷ [])
unfolding expand_all add_all
started id p ps =
    ap
      (add_all (
        (if p.access_level == "read-write" then allowing id p update "read-write" ∷ [] else [])
        ++ expand_all id ps))
      (sym (first_response id (allowing id p read p.access_level) refl))

-- The permissions of a request that names at least one identity, each identity once and with a
-- known level and type, are read back from the identity permissions that they become: as the one
-- response for the data set, with the same permissions in the same order.
pub permissions_response-identity_permissions :
    (id : String) (p : DataSetPermission) (ps : List DataSetPermission)
    → All IsValid (p ∷ ps)
    → Distinct (p ∷ ps)
    → (data_set_permission_to_identity_permissions id (p ∷ ps)
        >>? identity_permissions_to_permissions_response)
      ≡ ok (record { data_set_id = id; permissions = p ∷ ps; page_token = none } ∷ [])
unfolding data_set_permission_to_identity_permissions identity_permissions_to_permissions_response
permissions_response-identity_permissions id p ps valid distinct =
    let (levels, types) = request-accepted (p ∷ ps) valid in
    let (actions, effects) = expand_all-accepted id (p ∷ ps) in
    rw (levels, types)
      (rw (actions, effects)
        (ap ok (started id p ps ∙ add_all-expand_all id [] (p ∷ ps) valid distinct)))
