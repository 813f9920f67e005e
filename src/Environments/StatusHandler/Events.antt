-- ===== src/Environments/StatusHandler/Events.antt =====
-- Which events change anything.
use mathlib.Core.Bool.{false≢true}
use research_service_workben.Base.{
  ok_injective, ℕ, ◌≤◌, ltb→ge, ◌≢◌, ◌||◌, is_some, includes, sym, ◌==◌, eq_iff, String, true,
  false, Option, none, some, ◌≡◌, refl, ap, ◌∙◌, ◌⊎◌, inl, inr, ok, arith, Bool-cases, Option-cases,
  Result-split, is_ok, bind-fails, bind-continues, bind-lift_world, Async, lift, ◌>>=◌, truthy,
  ◌<>◌,
}
use research_service_workben.Environments.Models.{Environment, environment_status}
use research_service_workben.Environments.Service.{get_environment}
use research_service_workben.Environments.Service.Guards.{IsReadOnly, get_environment_same}
use research_service_workben.Environments.StatusHandler.{
  EventMetadata, EventBridgeEventToDdb, StatusHost, skips, or_else, env_id_of, get_env_id,
  event_env_id, is_launch, same_option, later, apply_event, with_environment, concerns, execute_if,
  execute,
}

-- The event is not older than the update, so far as both times can be parsed.
abbrev pub IsNotOlder : (updated event : Option ℕ) → Type 0
IsNotOlder (some updated) (some event) = updated ≤ event
IsNotOlder (some updated) none = Unit
IsNotOlder none event = Unit

-- A launch may always be applied; another event only if it is not older than the environment's last update,
-- brings another status, and the launch has set the instance.
abbrev pub MayApply :
    {W : Type 0} → StatusHost W → EventBridgeEventToDdb → EventMetadata → Environment → Type 0
MayApply h e m env =
    (e.operation ≡ some "Launch")
    ⊎ (IsNotOlder (h.date_parse env.updated_at) (h.date_parse m.time)
        × (env.status ≢ e.status)
        × (env.instance_id ≢ some ""))

not_later : (a b : Option ℕ) → later a b ≡ false → IsNotOlder a b
not_later (some a) (some b) h = ltb→ge b a h
not_later (some a) none h = tt
not_later none b h = tt

pub same_option-some : (o : Option String) (s : String) → same_option o s ≡ true → o ≡ some s
same_option-some none s h = cc
same_option-some (some a) s h = ap some ((eq_iff a s).0 h)

some-same_option : (o : Option String) (s : String) → o ≡ some s → same_option o s ≡ true
some-same_option none s h = cc
some-same_option (some a) s h = ground (arith, eq_iff a s)

skips-MayApply :
    {W : Type 0} (h : StatusHost W) (e : EventBridgeEventToDdb) (m : EventMetadata)
    (env : Environment)
    → skips h e m env ≡ false
    → MayApply h e m env
unfolding skips
skips-MayApply h e m env due = elim (Bool-cases (is_launch e)) [
  | inl launch ↦ inl (same_option-some e.operation "Launch" launch)
  | inr other ↦
      let timely : later (h.date_parse env.updated_at) (h.date_parse m.time) ≡ false =
        ground arith in
      let moves : (env.status == e.status) ≡ false = ground arith in
      let known : same_option env.instance_id "" ≡ false = ground arith in
      inr (
        not_later (h.date_parse env.updated_at) (h.date_parse m.time) timely,
        (λ k. false≢true (sym moves ∙ (eq_iff env.status e.status).1 k)),
        λ k. false≢true (sym known ∙ some-same_option env.instance_id "" k),
      )
]

-- An environment's id, as the event gives it, or else as the instance's first item does.
abbrev pub IsNamed : {W : Type 0} → StatusHost W → EventBridgeEventToDdb → W → String → Type 0
IsNamed h e w id =
    ((e.env_id ≡ some id) × (id ≢ ""))
    ⊎ (((e.env_id ≡ none) ⊎ (e.env_id ≡ some "")) × ((get_env_id h e.instance_id w).0 ≡ ok id))

event_env_id-IsNamed :
    {W : Type 0} (h : StatusHost W) (e : EventBridgeEventToDdb) (w : W) (id : String)
    → (event_env_id h e (truthy e.env_id) w).0 ≡ ok id
    → IsNamed h e w id
event_env_id-IsNamed {W} h e w id named = go e.env_id refl named
  where
    go :
        (o : Option String)
        → e.env_id ≡ o
        → (event_env_id h e (truthy o) w).0 ≡ ok id
        → IsNamed h e w id
    go none same n = inr (inl same, n)
    go (some s) same n = elim (Bool-cases (s == "")) [
      | inl empty ↦
          let nothing : truthy (some s) ≡ none = rw empty refl in
          inr (
            inr (same ∙ ap some ((eq_iff s "").0 empty)),
            sym (ap (λ o. (event_env_id h e o w).0) nothing) ∙ n,
          )
      | inr other ↦
          let itself : truthy (some s) ≡ some s = rw other refl in
          let s_is : s ≡ id = ok_injective (sym (ap (λ o. (event_env_id h e o w).0) itself) ∙ n) in
          inl (same ∙ ap some s_is, λ k. false≢true (sym other ∙ (eq_iff s "").1 (s_is ∙ k)))
    ]

module _ {W : Type 0} (h : StatusHost W) (reads : IsReadOnly h.table) (e : EventBridgeEventToDdb)
    (w : W) where
  -- An event that is applied: it names an environment or an instance and a known status; and the
  -- environment that is read for it does not let it be skipped.
  pub record IsApplied : Type 0 where
    pub env_id : String
    pub named : IsNamed h e w env_id
    pub env : Environment
    pub there : (get_environment h.table env_id true w).0 ≡ ok env
    pub metadata : EventMetadata
    pub described : e.metadata ≡ some metadata
    pub names_one : (is_some e.env_id || is_some e.instance_id) ≡ true
    pub known_status : includes e.status environment_status ≡ true
    pub due : MayApply h e metadata env
    pub effect : execute h e w ≡ apply_event h e metadata env env_id w

  -- The environment is there: what becomes of the event.
  applied :
      (id : String) (env : Environment)
      → ((with_environment h e id env w).1 ≡ w)
        ⊎ ((m : EventMetadata) × (e.metadata ≡ some m)
            × (skips h e m env ≡ false)
            × (with_environment h e id env w ≡ apply_event h e m env id w))
  applied id env = elim (Option-cases e.metadata) [
    | inl f ↦ inl (ground arith)
    | inr (m, f) ↦ elim (Bool-cases (skips h e m env)) [
      | inl g ↦ inl (ground arith)
      | inr g ↦ inr (m, f, g, ground arith)
    ]
  ]

  query_world : (pk : String) → ((h.table.query pk >>= λ items. lift (env_id_of items)) w).1 ≡ w
  query_world pk = bind-lift_world (h.table.query pk) env_id_of w ∙ reads.query pk w

  event_env_id_same : (o : Option String) → (event_env_id h e o w).1 ≡ w
  unfolding get_env_id
  event_env_id_same none = query_world ("INID#" <> or_else e.instance_id "undefined")
  event_env_id_same (some id) = refl

  failing_same :
      {A B : Type 0} (m : Async W A) (f : A → Async W B)
      → (m w).1 ≡ w
      → is_ok (m w).0 ≡ false
      → ((m >>= f) w).1 ≡ w
  failing_same m f same failed = (bind-fails m f w failed).1 ∙ same

  -- Where the table's reads change nothing, an event either leaves everything as it was, or it is applied
  -- to an environment that was read: the event names the environment, or its instance, its status is a known
  -- one, and it is a launch, or else it is not older than the environment's last update, brings another
  -- status, and the instance is known.
  pub execute-IsApplied : ((execute h e w).1 ≡ w) ⊎ IsApplied
  unfolding execute
  execute-IsApplied =
      let find_id = event_env_id h e (truthy e.env_id) in
      let read = λ (id : String). get_environment h.table id true >>= with_environment h e id in
      let id_same = event_env_id_same (truthy e.env_id) in
      let started : concerns e ≡ true → execute h e w ≡ (find_id >>= read) w =
        λ c. ap (λ b. execute_if h b e w) c in
      elim (Bool-cases (concerns e)) [
        | inr ignored ↦ inl (ap (λ b. (execute_if h b e w).1) ignored)
        | inl c ↦ elim (Result-split (find_id w).0) [
          | inl (id, named) ↦
              let on_id = started c ∙ bind-continues find_id read w named id_same in
              let env_same = get_environment_same h.table reads id true w in
              elim (Result-split (get_environment h.table id true w).0) [
                | inl (env, there) ↦
                    let on_env =
                      on_id
                      ∙ bind-continues (get_environment h.table id true) (with_environment h e id) w
                          there env_same in
                    elim (applied id env) [
                      | inl kept ↦ inl (ap (λ r. r.1) on_env ∙ kept)
                      | inr (m, described, due, effect) ↦ inr (record {
                        env_id = id;
                        named = event_env_id-IsNamed h e w id named;
                        env = env;
                        there = there;
                        metadata = m;
                        described = described;
                        names_one = ground (arith, c);
                        known_status = ground (arith, c);
                        due = skips-MayApply h e m env due;
                        effect = on_env ∙ effect;
                      })
                    ]
                | inr (inl (x, f)) ↦ inl (
                    ap (λ r. r.1) on_id
                    ∙ failing_same (get_environment h.table id true) (with_environment h e id)
                        env_same (ground arith))
                | inr (inr f) ↦ inl (
                    ap (λ r. r.1) on_id
                    ∙ failing_same (get_environment h.table id true) (with_environment h e id)
                        env_same (ground arith))
              ]
          | inr (inl (x, f)) ↦
              inl (ap (λ r. r.1) (started c) ∙ failing_same find_id read id_same (ground arith))
          | inr (inr f) ↦
              inl (ap (λ r. r.1) (started c) ∙ failing_same find_id read id_same (ground arith))
        ]
      ]
