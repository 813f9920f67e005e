-- ===== src/Authorization/Keys/RoundTrip.antt =====
-- Permissions, their items and the keys of these, where no text holds the delimiter.
use text.Mathlib.TextLemmas.{nil-append, cons-append}
use research_service_workben.Base.{
  String, Option, some, ◌∷◌, ◌≡◌, refl, sym, ap, ◌∙◌, ok, ◌<>◌, split, Without, split-Without,
  split-append, arith,
}
use research_service_workben.Authorization.Models.{
  Action, create, Effect, allow, deny, IdentityType, group, user, IdentityPermission,
}
use research_service_workben.Authorization.Keys.{
  SortKeyParts, action_text, effect_text, identity_type_text, parse_action,
  identity_permissions_partition_key, identity_permissions_sort_key, decompose_partition_key,
  decompose_sort_key, transform_identity_permissions_to_item, transform_item_to_identity_permission,
  parse_effect, parse_identity_type,
}

abbrev pub NoDelimiter : String → Type 0
NoDelimiter = Without b'|'

ok-injective : {A : Type 0} {a b : A} → ok a ≡ ok b → a ≡ b
ok-injective e = cc

some-injective : {A : Type 0} {a b : A} → some a ≡ some b → a ≡ b
some-injective e = cc

split_bar : (s t : String) → NoDelimiter s → split b'|' (s <> "|" <> t) ≡ s ∷ split b'|' t
split_bar s t h = rw (cons-append, nil-append) (split-append b'|' s t "|" h refl)

action_text-Without : (a : Action) → NoDelimiter (action_text a)
action_text-Without create = ground arith
action_text-Without _ = ground arith

effect_text-Without : (e : Effect) → NoDelimiter (effect_text e)
effect_text-Without allow = ground arith
effect_text-Without deny = ground arith

identity_type_text-Without : (t : IdentityType) → NoDelimiter (identity_type_text t)
identity_type_text-Without group = ground arith
identity_type_text-Without user = ground arith

decompose_partition_key_lem :
    (t i : String)
    → NoDelimiter t
    → NoDelimiter i
    → decompose_partition_key (identity_permissions_partition_key t i) ≡ (some t, some i)
unfolding decompose_partition_key identity_permissions_partition_key
decompose_partition_key_lem t i ht hi = rw (split_bar t i ht, split-Without b'|' i hi)

decompose_sort_key_lem :
    (a : Action) (e : Effect) (t : IdentityType) (i : String)
    → NoDelimiter i
    → decompose_sort_key (identity_permissions_sort_key a e t i) ≡ record {
      action = some (action_text a);
      effect = some (effect_text e);
      identity_type = some (identity_type_text t);
      identity_id = some i;
    }
unfolding decompose_sort_key identity_permissions_sort_key
decompose_sort_key_lem a e t i h = rw (
  split_bar (action_text a) _ (action_text-Without a),
  split_bar (effect_text e) _ (effect_text-Without e),
  split_bar (identity_type_text t) i (identity_type_text-Without t),
  split-Without b'|' i h,
)

parse_action_lem : (a : Action) → parse_action (some (action_text a)) ≡ ok a
parse_action_lem create = refl
parse_action_lem _ = refl

parse_effect_lem : (e : Effect) → parse_effect (some (effect_text e)) ≡ ok e
parse_effect_lem allow = refl
parse_effect_lem deny = refl

parse_identity_type_lem :
    (t : IdentityType) → parse_identity_type (some (identity_type_text t)) ≡ ok t
parse_identity_type_lem group = refl
parse_identity_type_lem user = refl

-- The texts of a permission that the caller chooses.
pub record IsStorable (p : IdentityPermission) : Type 0 where
  pub subject_type : NoDelimiter p.subject_type
  pub subject_id : NoDelimiter p.subject_id
  pub identity_id : NoDelimiter p.identity_id

-- An identity permission whose subject type, subject id and identity id hold no `|` is read back
-- from its item as it was, with all its fields.
pub transform_item-transform_identity_permissions :
    (p : IdentityPermission)
    → IsStorable p
    → transform_item_to_identity_permission (transform_identity_permissions_to_item p) ≡ ok p
unfolding transform_item_to_identity_permission transform_identity_permissions_to_item
transform_item-transform_identity_permissions p h = rw (
  decompose_partition_key_lem p.subject_type p.subject_id h.subject_type h.subject_id,
  decompose_sort_key_lem p.action p.effect p.identity_type p.identity_id h.identity_id,
  parse_action_lem p.action,
  parse_effect_lem p.effect,
  parse_identity_type_lem p.identity_type,
)

-- Two such permissions with the same keys have the same subject, identity, action and effect.
pub record SameRight (p q : IdentityPermission) : Type 0 where
  pub subject_type : p.subject_type ≡ q.subject_type
  pub subject_id : p.subject_id ≡ q.subject_id
  pub action : p.action ≡ q.action
  pub effect : p.effect ≡ q.effect
  pub identity_type : p.identity_type ≡ q.identity_type
  pub identity_id : p.identity_id ≡ q.identity_id

module _ (p q : IdentityPermission) (hp : IsStorable p) (hq : IsStorable q)
    (same_pk : (transform_identity_permissions_to_item p).pk
      ≡ (transform_identity_permissions_to_item q).pk)
    (same_sk : (transform_identity_permissions_to_item p).sk
      ≡ (transform_identity_permissions_to_item q).sk) where
  subject_eq : (p.subject_type ≡ q.subject_type) × (p.subject_id ≡ q.subject_id)
  unfolding transform_identity_permissions_to_item
  subject_eq =
      let both =
        sym (decompose_partition_key_lem p.subject_type p.subject_id hp.subject_type hp.subject_id)
        ∙ (ap decompose_partition_key same_pk
            ∙ decompose_partition_key_lem q.subject_type q.subject_id hq.subject_type
                hq.subject_id) in
      (
        some-injective (ap (λ (t : Option String × Option String). t.0) both),
        some-injective (ap (λ (t : Option String × Option String). t.1) both),
      )

  sort_parts_eq :
      ◌≡◌ {A = SortKeyParts}
        (record {
          action = some (action_text p.action);
          effect = some (effect_text p.effect);
          identity_type = some (identity_type_text p.identity_type);
          identity_id = some p.identity_id;
        })
        (record {
          action = some (action_text q.action);
          effect = some (effect_text q.effect);
          identity_type = some (identity_type_text q.identity_type);
          identity_id = some q.identity_id;
        })
  unfolding transform_identity_permissions_to_item
  sort_parts_eq =
      sym (decompose_sort_key_lem p.action p.effect p.identity_type p.identity_id hp.identity_id)
      ∙ (ap decompose_sort_key same_sk
          ∙ decompose_sort_key_lem q.action q.effect q.identity_type q.identity_id hq.identity_id)

  -- The keys of an item determine the right: two identity permissions without `|` in their texts
  -- that are stored under the same partition and sort key give the same action with the same
  -- effect on the same subject to the same identity.
  pub same_keys-SameRight : SameRight p q
  same_keys-SameRight = record {
    subject_type = subject_eq.0;
    subject_id = subject_eq.1;
    action = ok-injective (
        sym (parse_action_lem p.action)
        ∙ (ap (λ (k : SortKeyParts). parse_action k.action) sort_parts_eq
            ∙ parse_action_lem q.action));
    effect = ok-injective (
        sym (parse_effect_lem p.effect)
        ∙ (ap (λ (k : SortKeyParts). parse_effect k.effect) sort_parts_eq
            ∙ parse_effect_lem q.effect));
    identity_type = ok-injective (
        sym (parse_identity_type_lem p.identity_type)
        ∙ (ap (λ (k : SortKeyParts). parse_identity_type k.identity_type) sort_parts_eq
            ∙ parse_identity_type_lem q.identity_type));
    identity_id = some-injective (ap (λ (k : SortKeyParts). k.identity_id) sort_parts_eq);
  }
