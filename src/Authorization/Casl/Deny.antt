-- ===== src/Authorization/Casl/Deny.antt =====
-- The meaning of a list of permissions, by its ALLOW and its DENY permissions.
use research_service_workben.Base.{
  String, Bool, true, false, not, ◌||◌, ◌&&◌, some, List, [], ◌∷◌, ◌++◌, map, ◌≡◌, ◌≢◌, refl, ◌↔◌,
  ◌∙◌, sym, ap, ok, any, keep, All, arith, Bool-cases, lookup, inl, inr, ◌==◌, eq_iff, Dict, ◌⊎◌,
  err, Error, eq_refl,
}
use mathlib.Core.List.{append_assoc, append-nil}
use research_service_workben.Authorization.Models.{
  Effect, Permission, Operation, DynamicOperation, IdentityPermission, text,
}
use research_service_workben.Authorization.Casl.{
  Rule, Request, Casl, is_allow, is_deny, permission_rule, identity_rule, operation_request,
  dynamic_request, throw_unless_can, is_authorized, is_authorized_on_dynamic_operations,
  define_abilities_for_user_permissions, define_abilities_for_identity_permissions, assign, omit,
  given_conditions, identity_conditions,
}

module _ (c : Casl) where
  can-append_allows :
      (base rs : List Rule) (q : Request)
      → All (λ r. r.inverted ≡ false) rs
      → c.can (base ++ rs) q ≡ (any (λ r. c.matches r q) rs || c.can base q)
  can-append_allows base [] q h = ap (λ l. c.can l q) (append-nil base)
  can-append_allows base (r ∷ rs) q (h, hs) =
      ap (λ l. c.can l q) (sym (append_assoc base (r ∷ []) rs))
      ∙ (can-append_allows (base ++ r ∷ []) rs q hs ∙ rw (c.can-append base r q, h) (ground arith))

  can-append_denies :
      (base rs : List Rule) (q : Request)
      → All (λ r. r.inverted ≡ true) rs
      → c.can (base ++ rs) q ≡ (not (any (λ r. c.matches r q) rs) && c.can base q)
  can-append_denies base [] q h = ap (λ l. c.can l q) (append-nil base)
  can-append_denies base (r ∷ rs) q (h, hs) =
      ap (λ l. c.can l q) (sym (append_assoc base (r ∷ []) rs))
      ∙ (can-append_denies (base ++ r ∷ []) rs q hs ∙ rw (c.can-append base r q, h) (ground arith))

module _ {ℓ} {P : Type ℓ} where
  any-map-keep :
      {B : Type 0} (test : P → Bool) (f : P → B) (p : B → Bool) (xs : List P)
      → any p (map f (keep test xs)) ≡ any (λ x. test x && p (f x)) xs
  any-map-keep test f p [] = refl
  any-map-keep test f p (x ∷ xs) = ground (arith, any-map-keep test f p xs)

  All-map {κ} :
      {B : Type 0} (Q : B → Type κ) (f : P → B)
      → ((x : P) → Q (f x))
      → (xs : List P) → All Q (map f xs)
  All-map Q f h [] = tt
  All-map Q f h (x ∷ xs) = (h x, All-map Q f h xs)

-- An ALLOW among the permissions matches the request.
abbrev pub IsGranted : {P : Type 0} → (P → Effect) → (P → Rule) → Casl → List P → Request → Type 0
IsGranted effect allowing c ps q =
    any (λ p. is_allow (effect p) && c.matches (allowing p) q) ps ≡ true

-- A DENY among the permissions matches the request.
abbrev pub IsDenied : {P : Type 0} → (P → Effect) → (P → Rule) → Casl → List P → Request → Type 0
IsDenied effect denying c ps q = any (λ p. is_deny (effect p) && c.matches (denying p) q) ps ≡ true

-- Every request is granted, and none is denied.
abbrev pub MayAll :
    {P : Type 0} → (P → Effect) → (Bool → P → Rule) → Casl → List P → List Request → Type 0
MayAll effect rule c ps qs =
    All (λ q. IsGranted effect (rule false) c ps q × (¬ IsDenied effect (rule true) c ps q)) qs

module _ (c : Casl) {P : Type 0} (effect : P → Effect) (rule : Bool → P → Rule)
    (inverted : (b : Bool) (p : P) → (rule b p).inverted ≡ b) where
  abbrev allows : List P → List Rule
  allows ps = map (rule false) (keep (λ p. is_allow (effect p)) ps)

  abbrev denies : List P → List Rule
  denies ps = map (rule true) (keep (λ p. is_deny (effect p)) ps)

  abbrev rules : List P → List Rule
  rules ps = allows ps ++ denies ps

  can-rules :
      (ps : List P) (q : Request)
      → c.can (rules ps) q ≡ (
          not (any (λ p. is_deny (effect p) && c.matches (rule true p) q) ps)
          && any (λ p. is_allow (effect p) && c.matches (rule false p) q) ps)
  can-rules ps q =
      can-append_denies c (allows ps) (denies ps) q (All-map _ _ (inverted true) _)
      ∙ rw
          (
            can-append_allows c [] (allows ps) q (All-map _ _ (inverted false) _),
            c.can-nil q,
            any-map-keep (λ p. is_allow (effect p)) (rule false) (λ r. c.matches r q) ps,
            any-map-keep (λ p. is_deny (effect p)) (rule true) (λ r. c.matches r q) ps,
          )
          (ground arith)

  throw_unless_can-rules :
      (ps : List P) (qs : List Request)
      → (throw_unless_can c (rules ps) qs ≡ ok tt) ↔ MayAll effect rule c ps qs
  unfolding throw_unless_can
  throw_unless_can-rules ps [] = (λ h. tt, λ h. refl)
  throw_unless_can-rules ps (q ∷ qs) = ground (arith, can-rules ps q, throw_unless_can-rules ps qs)

-- A user's static permissions authorize a list of operations exactly when each operation is
-- matched by some ALLOW permission and by no DENY permission, in whatever order they are listed.
pub is_authorized_iff :
    (c : Casl) (ps : List Permission) (ops : List Operation)
    → (is_authorized c ps ops ≡ ok tt)
      ↔ MayAll (λ p. p.effect) permission_rule c ps (map operation_request ops)
unfolding is_authorized define_abilities_for_user_permissions permission_rule
is_authorized_iff c ps ops = throw_unless_can-rules c _ permission_rule (λ b p. refl) ps _

-- Identity permissions authorize a list of dynamic operations exactly when each operation is
-- matched by some ALLOW permission and by no DENY permission, in whatever order they are listed.
pub is_authorized_on_dynamic_operations_iff :
    (c : Casl) (ps : List IdentityPermission) (ops : List DynamicOperation)
    → (is_authorized_on_dynamic_operations c ps ops ≡ ok tt)
      ↔ MayAll (λ p. p.effect) identity_rule c ps (map dynamic_request ops)
unfolding is_authorized_on_dynamic_operations define_abilities_for_identity_permissions
    identity_rule
is_authorized_on_dynamic_operations_iff c ps ops =
    throw_unless_can-rules c _ identity_rule (λ b p. refl) ps _

module _ (c : Casl) where
  throw_unless_can-cases :
      (rules : List Rule) (qs : List Request)
      → (throw_unless_can c rules qs ≡ ok tt) ⊎ (throw_unless_can c rules qs ≡ err Error.forbidden)
  unfolding throw_unless_can
  throw_unless_can-cases rules [] = inl refl
  throw_unless_can-cases rules (q ∷ qs) = ground (arith, throw_unless_can-cases rules qs)

lookup-assign_self {ℓ} :
    {V : Type ℓ} (k : String) (v : V) (d : Dict V) → lookup k (assign k v d) ≡ some v
lookup-assign_self k v [] = rw (eq_refl k)
lookup-assign_self k v ((j, w) ∷ d) =
    ground (arith, eq_iff j k, eq_iff k k, eq_refl k, lookup-assign_self k v d)

lookup-omit_ne {ℓ} :
    {V : Type ℓ} (j k : String) (d : Dict V) → j ≢ k → lookup j (omit k d) ≡ lookup j d
lookup-omit_ne j k [] ne = refl
lookup-omit_ne j k ((i, w) ∷ d) ne = ground (arith, eq_iff i k, eq_iff i j, lookup-omit_ne j k d ne)

lookup-identity_conditions :
    (p : IdentityPermission)
    → p.subject_id ≢ "*"
    → lookup "subjectId" (identity_conditions p) ≡ some (text p.subject_id)
unfolding identity_conditions
lookup-identity_conditions p ne = elim (Bool-cases (p.subject_id == "*")) [
  | inl wild ↦ absurd (ne ((eq_iff p.subject_id "*").0 wild))
  | inr other ↦
      rw other (lookup-assign_self "subjectId" (text p.subject_id) (given_conditions p.conditions))
]

-- A permission on the subject `s`, which is not the wildcard `*`, matches no request about another
-- subject, whatever further conditions it carries: neither its ALLOW nor its DENY reaches there.
pub identity_rule-subject :
    (c : Casl) (inverted : Bool) (p : IdentityPermission) (op : DynamicOperation)
    → p.subject_id ≢ "*"
    → c.matches (identity_rule inverted p) (dynamic_request op) ≡ true
    → lookup "subjectId" op.subject ≡ some p.subject_id
unfolding identity_rule dynamic_request
identity_rule-subject c inverted p op ne m =
    sym (
      lookup-omit_ne "subjectId" "subjectType" op.subject
        (ground (arith, eq_iff "subjectId" "subjectType")))
    ∙ c.matches-conditions _ _ _ "subjectId" p.subject_id refl m (lookup-identity_conditions p ne)
