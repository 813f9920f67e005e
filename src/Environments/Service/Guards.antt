-- ===== src/Environments/Service/Guards.antt =====
-- What must hold before an environment is written.
use research_service_workben.Base.{
  String, Bool, true, false, some, List, [], ◌∷◌, ◌≡◌, refl, ap, ◌∙◌, ◌⊎◌, inl, inr, ok, arith,
  Bool-cases, Option-cases, Result-split, is_ok, bind-fails, bind-runs, bind-continues,
  bind-lift_world, lift, ◌>>=◌, find, keep, any, ◌==◌, All,
}
use research_service_workben.Authorization.Models.{AuthenticatedUser}
use research_service_workben.Environments.Models.{Item, Environment}
use research_service_workben.Environments.Items.{
  Key, build_dynamo_db_key, build_dynamo_db_pk_sk, CreateEnvironmentRequest, items_to_get,
  is_resource, has_id, ids_not_found, no_ids, complete, check_metadata, items_of,
}
use research_service_workben.Environments.Reading.{updated_environment}
use research_service_workben.Environments.Service.{
  EnvironmentTable, is_terminated, get_environment, check_active, update_environment,
  store_environment, create_environment,
}

-- Reading changes nothing.
pub record IsReadOnly {W : Type 0} (t : EnvironmentTable W) : Type 0 where
  pub get_item : (k : Key) (w : W) → (t.get_item k w).1 ≡ w
  pub get_items : (ks : List Key) (w : W) → (t.get_items ks w).1 ≡ w
  pub query : (pk : String) (w : W) → (t.query pk w).1 ≡ w

-- What the items that were read show of the request: its configuration and its project are there, and
-- each data set.
pub record IsComplete (p : CreateEnvironmentRequest) (items : List Item) (etc project : Item)
    : Type 0 where
  pub configuration : find (is_resource "envTypeConfig") items ≡ some etc
  pub project_there : find (is_resource "project") items ≡ some project
  pub datasets_there :
      All (λ id. any (has_id id) (keep (is_resource "dataset") items) ≡ true) p.dataset_ids

no_ids-All :
    (datasets : List Item) (ids : List String)
    → no_ids (ids_not_found datasets ids) ≡ true
    → All (λ id. any (has_id id) datasets ≡ true) ids
unfolding ids_not_found
no_ids-All datasets [] h = tt
no_ids-All datasets (id ∷ ids) h = elim (Bool-cases (any (has_id id) datasets)) [
  | inl e ↦ (e, no_ids-All datasets ids (ground arith))
  | inr e ↦ absurd (ground arith)
]

check_metadata-IsComplete :
    (p : CreateEnvironmentRequest) (items : List Item)
    → (is_ok (check_metadata p items) ≡ false)
      ⊎ ((etc : Item) × (project : Item) × IsComplete p items etc project
          × (check_metadata p items ≡ ok (etc, project, keep (is_resource "dataset") items)))
unfolding check_metadata
check_metadata-IsComplete p items = elim (Option-cases (find (is_resource "envTypeConfig") items)) [
  | inl e ↦ inl (ground arith)
  | inr (etc, e) ↦ elim (Option-cases (find (is_resource "project") items)) [
    | inl f ↦ inl (ground arith)
    | inr (project, f) ↦
        elim (Bool-cases
          (no_ids (ids_not_found (keep (is_resource "dataset") items) p.dataset_ids))) [
            | inl g ↦ inr (
              etc,
              project,
              record {
                configuration = e;
                project_there = f;
                datasets_there = no_ids-All (keep (is_resource "dataset") items) p.dataset_ids g;
              },
              ground arith,
            )
            | inr g ↦ inl (ground arith)
          ]
  ]
]

module _ {W : Type 0} (t : EnvironmentTable W) (reads : IsReadOnly t) where
  pub get_environment_same : (id : String) (b : Bool) (w : W) → (get_environment t id b w).1 ≡ w
  unfolding get_environment
  get_environment_same id false w =
      elim (Result-split (t.get_item (build_dynamo_db_pk_sk id "ENV") w).0) [
        | inl (a, e) ↦ ground (arith, reads.get_item (build_dynamo_db_pk_sk id "ENV") w)
        | inr (inl (x, e)) ↦ ground (arith, reads.get_item (build_dynamo_db_pk_sk id "ENV") w)
        | inr (inr e) ↦ ground (arith, reads.get_item (build_dynamo_db_pk_sk id "ENV") w)
      ]
  get_environment_same id true w =
      elim (Result-split (t.query (build_dynamo_db_key id "ENV") w).0) [
        | inl (a, e) ↦ ground (arith, reads.query (build_dynamo_db_key id "ENV") w)
        | inr (inl (x, e)) ↦ ground (arith, reads.query (build_dynamo_db_key id "ENV") w)
        | inr (inr e) ↦ ground (arith, reads.query (build_dynamo_db_key id "ENV") w)
      ]

  active :
      (id : String) (w : W)
      → ((check_active t id w).1 ≡ w)
        × ((is_ok (check_active t id w).0 ≡ false)
            ⊎ (((check_active t id w).0 ≡ ok tt)
                × ((env : Environment) × ((get_environment t id false w).0 ≡ ok env)
                    × (is_terminated env ≡ false))))
  active id w =
      let same = get_environment_same id false w in
      elim (Result-split (get_environment t id false w).0) [
        | inl (env, e) ↦ elim (Bool-cases (is_terminated env)) [
          | inl f ↦ (ground (arith, same), inl (ground arith))
          | inr f ↦ (ground (arith, same), inr (ground arith, (env, e, f)))
        ]
        | inr (inl (x, e)) ↦ (ground (arith, same), inl (ground arith))
        | inr (inr e) ↦ (ground (arith, same), inl (ground arith))
      ]

  -- Where the table's reads change nothing, updateEnvironment either writes nothing and does not return,
  -- or the environment is there, is not terminated, and the one write sets the values given.
  pub update_environment-checked :
      (id : String) (values : Item) (w : W)
      → ((is_ok (update_environment t id values w).0 ≡ false)
          × ((update_environment t id values w).1 ≡ w))
        ⊎ ((env : Environment) × ((get_environment t id false w).0 ≡ ok env)
            × ((env.status == "TERMINATED") ≡ false)
            × ((update_environment t id values w).1
                ≡ (t.update_item (build_dynamo_db_pk_sk id "ENV") values w).1))
  unfolding update_environment
  update_environment-checked id values w =
      let write = λ (u : Unit {0}).
        t.update_item (build_dynamo_db_pk_sk id "ENV") values >>= λ item.
        lift (updated_environment item) in
      let (same, checked) = active id w in
      elim checked [
        | inl failed ↦
            let (fails, kept) = bind-fails (check_active t id) write w failed in
            inl (fails, kept ∙ same)
        | inr (done, (env, there, alive)) ↦ inr (
          env,
          there,
          alive,
          bind-runs (check_active t id) write w done same
              ∙ bind-lift_world (t.update_item (build_dynamo_db_pk_sk id "ENV") values)
                  updated_environment w,
        )
      ]

  store_environment_world :
      (id now : String) (p : CreateEnvironmentRequest) (u : AuthenticatedUser) (etc project : Item)
      (datasets : List Item) (w : W)
      → (store_environment t id now p u (etc, project, datasets) w).1
        ≡ (t.put_items (items_of id now p u etc project datasets) w).1
  store_environment_world id now p u etc project datasets w =
      let put = t.put_items (items_of id now p u etc project datasets) in
      elim (Result-split (put w).0) [
        | inl (a, e) ↦ ground (arith, get_environment_same id true (put w).1)
        | inr (inl (x, e)) ↦ ground arith
        | inr (inr e) ↦ ground arith
      ]

  -- Where the table's reads change nothing, createEnvironment either writes nothing and does not return,
  -- or the items read for the request hold its configuration, its project and each of its data sets, and
  -- one transaction writes the items of the environment, of its relations, and of each data set read.
  pub create_environment-checked :
      (id now : String) (p : CreateEnvironmentRequest) (u : AuthenticatedUser) (w : W)
      → ((is_ok (create_environment t id now p u w).0 ≡ false)
          × ((create_environment t id now p u w).1 ≡ w))
        ⊎ ((items : List Item) × (etc : Item) × (project : Item) × ((t.get_items
                (items_to_get p)
                w).0
              ≡ ok items)
            × IsComplete p items etc project
            × ((create_environment t id now p u w).1
                ≡ (t.put_items
                    (items_of id now p u etc project (keep (is_resource "dataset") items))
                    w).1))
  unfolding create_environment
  create_environment-checked id now p u w =
      let read = t.get_items (items_to_get p) in
      let store = store_environment t id now p u in
      let rest = λ (items : List Item). lift {W = W} (check_metadata p items) >>= store in
      let same = reads.get_items (items_to_get p) w in
      let unread : is_ok (read w).0 ≡ false
          → (is_ok (create_environment t id now p u w).0 ≡ false)
            × ((create_environment t id now p u w).1 ≡ w) =
        λ h. let (fails, kept) = bind-fails read rest w h in (fails, kept ∙ same) in
      elim (Result-split (read w).0) [
        | inl (items, e) ↦
            let runs = bind-runs read rest w e same in
            elim (check_metadata-IsComplete p items) [
              | inl bad ↦
                  let (fails, kept) =
                    bind-fails (lift {W = W} (check_metadata p items)) store w bad in
                  inl (ap (λ r. is_ok r.0) (bind-continues read rest w e same) ∙ fails, runs ∙ kept)
              | inr (etc, project, complete, found) ↦ inr (
                items,
                etc,
                project,
                e,
                complete,
                runs
                    ∙ (bind-runs (lift {W = W} (check_metadata p items)) store w found refl
                        ∙ store_environment_world id now p u etc project
                            (keep (is_resource "dataset") items) w),
              )
            ]
        | inr (inl (x, e)) ↦ inl (unread (ground arith))
        | inr (inr e) ↦ inl (unread (ground arith))
      ]
