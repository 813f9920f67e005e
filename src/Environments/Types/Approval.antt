-- ===== src/Environments/Types/Approval.antt =====
-- When the approval of an environment type may be taken away, and what an update writes.
use research_service_workben.Base.{
  String, Bool, true, false, Option, none, some, List, [], ◌∷◌, ◌≡◌, ◌≢◌, refl, sym, ap, ◌∙◌, inl,
  inr, ◌⊎◌, ok, arith, Bool-cases, Option-cases, ◌&&◌, Result-split, Error, throw_if, lift, ◌>>◌,
  bind-ok, bind-continues, bind-lift_world, throw_if-ok, ◌==◌, eq_iff, lookup, length, ◌≤◌,
}
use research_service_workben.Authorization.Models.{Json, text}
use research_service_workben.Environments.Models.{Item}
use research_service_workben.Environments.Items.{Key, build_dynamo_db_pk_sk}
use research_service_workben.Environments.Types.{
  EnvironmentType, TypeTable, UpdateEnvironmentTypeRequest, some_config, check_unused, found_type,
  get_environment_type, validate_status_change, returned_type, store_type, updated_env_type,
  update_environment_type, parse_environment_type,
}

abbrev pub given_text : Option String → Option Json
given_text none = none
given_text (some s) = some (text s)

-- Reading changes nothing.
pub record IsReadOnly {W : Type 0} (t : TypeTable W) : Type 0 where
  pub get_item : (k : Key) (w : W) → (t.get_item k w).1 ≡ w
  pub configs_by_dependency : (id : String) (w : W) → (t.configs_by_dependency id w).1 ≡ w

-- The attributes that an update sets: what is given, and both times.
pub record IsUpdate (now : String) (r : UpdateEnvironmentTypeRequest) (values : Item) : Type 0 where
  pub name : lookup "name" values ≡ given_text r.name
  pub description : lookup "description" values ≡ given_text r.description
  pub status : lookup "status" values ≡ given_text r.status
  pub updated_at : lookup "updatedAt" values ≡ some (text now)
  pub created_at : lookup "createdAt" values ≡ some (text now)
  pub no_more : length values ≤ 5

updated_env_type-IsUpdate :
    (now : String) (r : UpdateEnvironmentTypeRequest) → IsUpdate now r (updated_env_type now r)
unfolding updated_env_type
updated_env_type-IsUpdate now r =
    let n = Option-cases r.name in
    let d = Option-cases r.description in
    let s = Option-cases r.status in
    record {
      name = ground arith;
      description = ground arith;
      status = ground arith;
      updated_at = ground arith;
      created_at = ground arith;
      no_more = ground arith;
    }

module _ {W : Type 0} (t : TypeTable W) where
  -- The update does not take the approval of the type away, or no configuration depends on the type.
  abbrev pub MayChange : Option String → EnvironmentType → W → Type 0
  MayChange status old w =
      (status ≢ some "NOT_APPROVED")
      ⊎ (old.status ≢ "APPROVED")
      ⊎ ((t.configs_by_dependency old.id w).0 ≡ ok [])

  no_config : (items : List Item) → some_config items ≡ false → items ≡ []
  no_config [] h = refl
  no_config (x ∷ xs) h = cc

  unused :
      (env_type : EnvironmentType) (w : W)
      → (check_unused t true env_type w).0 ≡ ok tt
      → (t.configs_by_dependency env_type.id w).0 ≡ ok []
  unused env_type w h =
      let read = t.configs_by_dependency env_type.id in
      let (items, found, rest) =
        bind-ok read (λ configs. throw_if (some_config configs) (Error.other "Conflict")) w h in
      let none_there = throw_if-ok (some_config items) (Error.other "Conflict") (read w).1 rest in
      found ∙ ap ok (no_config items none_there)

  returned_type-some :
      (found : Option Item) {d : EnvironmentType}
      → returned_type t found ≡ ok d
      → (item : Item) × (found ≡ some item) × (parse_environment_type t item ≡ ok d)
  returned_type-some none h = absurd (ground arith)
  returned_type-some (some item) h = (item, refl, h)

  module _ (reads : IsReadOnly t) where
    check_unused_same :
        (b : Bool) (env_type : EnvironmentType) (w : W) → (check_unused t b env_type w).1 ≡ w
    check_unused_same false env_type w = refl
    check_unused_same true env_type w =
        elim (Result-split (t.configs_by_dependency env_type.id w).0) [
          | inl (items, e) ↦ elim (Bool-cases (some_config items)) [
            | inl f ↦ ground (arith, reads.configs_by_dependency env_type.id w)
            | inr f ↦ ground (arith, reads.configs_by_dependency env_type.id w)
          ]
          | inr (inl (x, e)) ↦ ground (arith, reads.configs_by_dependency env_type.id w)
          | inr (inr e) ↦ ground (arith, reads.configs_by_dependency env_type.id w)
        ]

    get_environment_type_same : (id : String) (w : W) → (get_environment_type t id w).1 ≡ w
    unfolding get_environment_type
    get_environment_type_same id w =
        bind-lift_world (t.get_item (build_dynamo_db_pk_sk id "ET")) (found_type t) w
        ∙ reads.get_item (build_dynamo_db_pk_sk id "ET") w

    validate_same :
        (status : Option String) (old : EnvironmentType) (w : W)
        → (validate_status_change t status old w).1 ≡ w
    unfolding validate_status_change
    validate_same status old w = check_unused_same _ old w

    revoked :
        (s : String) (old : EnvironmentType) (w : W)
        → (s == "NOT_APPROVED") ≡ true
        → (old.status == "APPROVED") ≡ true
        → (validate_status_change t (some s) old w).0 ≡ ok tt
        → (check_unused t true old w).0 ≡ ok tt
    unfolding validate_status_change
    revoked s old w e f h =
        let both : (s == "NOT_APPROVED" && old.status == "APPROVED") ≡ true = ground arith in
        sym (ap (λ b. (check_unused t b old w).0) both) ∙ h

    validate-MayChange :
        (status : Option String) (old : EnvironmentType) (w : W)
        → (validate_status_change t status old w).0 ≡ ok tt
        → MayChange status old w
    unfolding validate_status_change
    validate-MayChange none old w h = inl cc
    validate-MayChange (some s) old w h = elim (Bool-cases (s == "NOT_APPROVED")) [
      | inr e ↦ inl (ground (arith, eq_iff s "NOT_APPROVED"))
      | inl e ↦ elim (Bool-cases (old.status == "APPROVED")) [
        | inr f ↦ inr (inl (ground (arith, eq_iff old.status "APPROVED")))
        | inl f ↦ inr (inr (unused old w (revoked s old w e f h)))
      ]
    ]

    -- Where the table's reads change nothing, updateEnvironmentType returns only if the type is there and,
    -- where the update takes its approval away, no configuration depends on it. All that the call then
    -- changes is what one write does: it sets the values given, and with them `updatedAt`, and also
    -- `createdAt`, to the time of the update.
    pub update_environment_type-MayChange :
        (now : String) (r : UpdateEnvironmentTypeRequest) (w : W) {d : EnvironmentType}
        → (update_environment_type t now r w).0 ≡ ok d
        → (old : EnvironmentType) × ((get_environment_type t r.env_type_id w).0 ≡ ok old)
          × MayChange r.status old w
          × ((values : Item) × IsUpdate now r values
              × ((update_environment_type t now r w).1
                  ≡ (t.update_item (build_dynamo_db_pk_sk r.env_type_id "ET") values w).1)
              × ((item : Item) × ((t.update_item
                      (build_dynamo_db_pk_sk r.env_type_id "ET")
                      values
                      w).0
                    ≡ ok (some item))
                  × (parse_environment_type t item ≡ ok d)))
    unfolding update_environment_type
    update_environment_type-MayChange now r w h =
        let read = get_environment_type t r.env_type_id in
        let store = store_type t r.env_type_id (updated_env_type now r) in
        let check = validate_status_change t r.status in
        let (old, there, after) = bind-ok read (λ old. check old >> store) w h in
        let on_old =
          bind-continues read (λ old. check old >> store) w there
            (get_environment_type_same r.env_type_id w) in
        let h1 = sym (ap (λ x. x.0) on_old) ∙ h in
        let (done, may, rest) = bind-ok (check old) (λ _. store) w h1 in
        let on_done =
          on_old ∙ bind-continues (check old) (λ _. store) w may (validate_same r.status old w) in
        let write =
          t.update_item (build_dynamo_db_pk_sk r.env_type_id "ET") (updated_env_type now r) in
        let (found, written, returned) =
          bind-ok write (λ item. lift {W = W} (returned_type t item)) w
            (sym (ap (λ x. x.0) on_done) ∙ h) in
        let (item, is_item, parsed) = returned_type-some found returned in
        (
          old,
          there,
          validate-MayChange r.status old w may,
          (
            updated_env_type now r,
            updated_env_type-IsUpdate now r,
            ap (λ x. x.1) on_done ∙ bind-lift_world write (returned_type t) w,
            (item, written ∙ ap ok is_item, parsed),
          ),
        )
