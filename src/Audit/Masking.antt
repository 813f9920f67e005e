-- ===== src/Audit/Masking.antt =====
-- What is written to the audit log.
use research_service_workben.Base.{
  bind-on, Async, Bool, All, all, [], ◌∷◌, sym, refl, ap, ◌∙◌, ◌>>◌, throw_if, Error, String, true,
  false, not, ◌&&◌, List, ◌≡◌, refl, inl, inr, ◌⊎◌, ok, arith, Bool-cases, bind-ok, ok_injective,
  throw_if-bind-ok, Error, pure, ◌>>=◌, includes,
}
use mathlib.Core.Path.{subst}
use research_service_workben.Authorization.Models.{
  Json, text, num, bool, arr, obj, Items, nil, cons, Fields, end, field,
}
use research_service_workben.Audit.Entries.{
  AuditServiceConfig, has_field, Body, body_fields, append_field, hidden, mask_deep, mask_items,
  mask_fields, is_audit_complete, create_audit_entry, write_entry, write,
}

module _ (fields_to_mask : List String) where
  -- A value that is no object under a field to be masked is hidden.
  abbrev pub IsHidden : String → Json → Type 0
  IsHidden k v = (includes k fields_to_mask ≡ false) ⊎ (v ≡ text "****")

  -- All values in it that are to be hidden are.
  abbrev mutual
    pub IsMasked : Json → Type 0
    IsMasked (arr vs) = AllMasked vs
    IsMasked (obj d) = IsMaskedObject d
    IsMasked (text s) = Unit
    IsMasked (num s) = Unit
    IsMasked (bool b) = Unit

    pub AllMasked : Items → Type 0
    AllMasked nil = Unit
    AllMasked (cons v vs) = IsMasked v × AllMasked vs

    pub IsMaskedObject : Fields → Type 0
    IsMaskedObject end = Unit
    IsMaskedObject (field k (arr vs) d) = AllMasked vs × IsMaskedObject d
    IsMaskedObject (field k (obj e) d) = IsMaskedObject e × IsMaskedObject d
    IsMaskedObject (field k (text s) d) = IsHidden k (text s) × IsMaskedObject d
    IsMaskedObject (field k (num s) d) = IsHidden k (num s) × IsMaskedObject d
    IsMaskedObject (field k (bool b) d) = IsHidden k (bool b) × IsMaskedObject d

  hidden-IsMaskedObject :
      (k : String) (v : Json) (d : Fields)
      → IsMaskedObject (field k (text "****") d)
      → (includes k fields_to_mask ≡ false → IsMaskedObject (field k v d))
      → IsMaskedObject (field k (hidden fields_to_mask k v) d)
  hidden-IsMaskedObject k v d masked shown = elim (Bool-cases (includes k fields_to_mask)) [
    | inl e ↦ rw e masked
    | inr e ↦ rw e (shown e)
  ]

  mutual
    unfolding mask_deep mask_items mask_fields

    mask_deep-IsMasked : (v : Json) → IsMasked (mask_deep fields_to_mask v)
    mask_deep-IsMasked (arr vs) = mask_items-AllMasked vs
    mask_deep-IsMasked (obj d) = mask_fields-IsMaskedObject d
    mask_deep-IsMasked (text s) = tt
    mask_deep-IsMasked (num s) = tt
    mask_deep-IsMasked (bool b) = tt

    mask_items-AllMasked : (vs : Items) → AllMasked (mask_items fields_to_mask vs)
    mask_items-AllMasked nil = tt
    mask_items-AllMasked (cons v vs) = (mask_deep-IsMasked v, mask_items-AllMasked vs)

    mask_fields-IsMaskedObject : (d : Fields) → IsMaskedObject (mask_fields fields_to_mask d)
    mask_fields-IsMaskedObject end = tt
    mask_fields-IsMaskedObject (field k (arr vs) d) =
        (mask_items-AllMasked vs, mask_fields-IsMaskedObject d)
    mask_fields-IsMaskedObject (field k (obj e) d) =
        (mask_fields-IsMaskedObject e, mask_fields-IsMaskedObject d)
    mask_fields-IsMaskedObject (field k (text s) d) =
        let rest = mask_fields-IsMaskedObject d in
        hidden-IsMaskedObject k (text s) (mask_fields fields_to_mask d) (inr refl, rest)
          (λ e. (inl e, rest))
    mask_fields-IsMaskedObject (field k (num s) d) =
        let rest = mask_fields-IsMaskedObject d in
        hidden-IsMaskedObject k (num s) (mask_fields fields_to_mask d) (inr refl, rest)
          (λ e. (inl e, rest))
    mask_fields-IsMaskedObject (field k (bool b) d) =
        let rest = mask_fields-IsMaskedObject d in
        hidden-IsMaskedObject k (bool b) (mask_fields fields_to_mask d) (inr refl, rest)
          (λ e. (inl e, rest))

throw_if-passes :
    {W A : Type 0} (b : Bool) (e : Error) (k : Async W A) (w : W)
    → b ≡ false
    → (throw_if b e >> k) w ≡ k w
throw_if-passes true e k w h = cc
throw_if-passes false e k w h = refl

all-All : {A : Type 0} (p : A → Bool) (xs : List A) → all p xs ≡ true → All (λ x. p x ≡ true) xs
all-All p [] h = tt
all-All p (x ∷ xs) h = (ground arith, all-All p xs (ground arith))

-- Where `write` returns, the plugin prepared the body and the time of the call, and all that the call did
-- after it was one write of an entry by the plugin: no value in the entry, however deep, that is no object
-- or array stands under a field to be masked, and the entry has every required value, unless the service is
-- to go on without them.
pub write-IsMasked :
    {W : Type 0} (c : AuditServiceConfig W) (now : String) (metadata : Fields) (body : Body) (w : W)
    → (write c now metadata body w).0 ≡ ok tt
    → (raw entry : Fields) × (v : W) × (c.audit_plugin.prepare metadata
          (append_field (body_fields body) "timestamp" (num now))
          w
        ≡ (ok raw, v))
      × (write c now metadata body w ≡ c.audit_plugin.write metadata entry v)
      × (entry ≡ mask_fields c.fields_to_mask raw)
      × IsMaskedObject c.fields_to_mask entry
      × (All (λ k. has_field entry k ≡ true) c.required_audit_values ⊎ (c.continue_on_error ≡ true))
unfolding write create_audit_entry is_audit_complete
write-IsMasked {W} c now metadata body w h =
    let prepare =
      c.audit_plugin.prepare metadata (append_field (body_fields body) "timestamp" (num now)) in
    let mask = λ (raw : Fields). pure {W = W} (mask_fields c.fields_to_mask raw) in
    let (entry, made, h1) = bind-ok (prepare >>= mask) (write_entry c metadata) w h in
    let (raw, prepared, same) = bind-ok prepare mask w made in
    let v = (prepare w).1 in
    let masked = bind-on prepare mask w prepared in
    let finish = write_entry c metadata entry in
    let on_entry =
      bind-on (prepare >>= mask) (write_entry c metadata) w made ∙ ap (λ x. finish x.1) masked in
    let incomplete = not (is_audit_complete c entry) && not c.continue_on_error in
    let complete =
      (throw_if-bind-ok incomplete Error.audit_incomplete (c.audit_plugin.write metadata entry)
        ((prepare >>= mask) w).1 h1).0 in
    (
      raw,
      entry,
      v,
      ap (λ x. (x, v)) prepared,
      on_entry
          ∙ throw_if-passes incomplete Error.audit_incomplete (c.audit_plugin.write metadata entry)
              v complete,
      sym (ok_injective same),
      subst (IsMaskedObject c.fields_to_mask) (ok_injective same)
          (mask_fields-IsMaskedObject c.fields_to_mask raw),
      elim (Bool-cases (is_audit_complete c entry)) [
        | inl e ↦ inl (all-All (has_field entry) c.required_audit_values e)
        | inr e ↦ inr (ground (arith, complete))
      ],
    )
