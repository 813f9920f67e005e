-- ===== src/Environments/StatusHandler/Reports.antt =====
-- What an event that is applied writes.
use mathlib.Core.Path.{subst}
use mathlib.Core.Bool.{false≢true}
use research_service_workben.Base.{
  ok_injective, String, Bool, true, false, Option, none, some, [], ◌∷◌, ◌++◌, ◌≡◌, ◌≢◌, ◌⊎◌, refl,
  sym, ap, ◌∙◌, inl, inr, ok, arith, Bool-cases, lift, ◌>>=◌, ◌>>◌, bind-ok, bind-on, lookup, ◌==◌,
  eq_iff, ◌<>◌, truthy,
}
use research_service_workben.Authorization.Models.{Json, text, obj}
use research_service_workben.Environments.Models.{Item, Environment, ProjectDependency, of_dict}
use research_service_workben.Environments.Service.{update_environment}
use research_service_workben.Environments.Service.Guards.{IsReadOnly}
use research_service_workben.Environments.StatusHandler.{
  EventMetadata, EventBridgeEventToDdb, HostSdk, StatusHost, or_else, needed, terminating,
  error_type, reported, stack_of, app_registry_of, leave_app_registry, update_request,
  finish_launch, is_launch, apply_event, execute,
}
use research_service_workben.Environments.StatusHandler.Events.{
  IsApplied, execute-IsApplied, same_option-some,
}

-- The attributes that are set: the status; for an environment that is terminated, the type under which lists no
-- longer find it; and the error, if there is a message that is not empty.
pub record IsReport (e : EventBridgeEventToDdb) (values : Item) : Type 0 where
  pub status : lookup "status" values ≡ some (text e.status)
  pub resource_type :
      ((e.status ≡ "TERMINATED")
        × (lookup "resourceType" values ≡ some (text "terminated_environment")))
      ⊎ ((e.status ≢ "TERMINATED") × (lookup "resourceType" values ≡ none))
  pub error :
      ((truthy e.error_msg ≡ none) × (lookup "error" values ≡ none))
      ⊎ ((message : String) × (kind : String) × (truthy e.error_msg ≡ some message)
          × (lookup "error" values
              ≡ some (obj (of_dict (("type", text kind) ∷ ("value", text message) ∷ [])))))

module _ {W : Type 0} (h : StatusHost W) where
  reported-resource :
      (e : EventBridgeEventToDdb) (o : Option String)
      → lookup "resourceType" (reported h e o) ≡ none
  reported-resource e none = refl
  reported-resource e (some m) = refl

  -- The error among the attributes, for a message that is there or not.
  abbrev IsErrorOf : Option String → Option Json → Type 0
  IsErrorOf o found =
      ((o ≡ none) × (found ≡ none))
      ⊎ ((message : String) × (kind : String) × (o ≡ some message)
          × (found ≡ some (obj (of_dict (("type", text kind) ∷ ("value", text message) ∷ [])))))

  reported-error :
      (e : EventBridgeEventToDdb) (o : Option String)
      → IsErrorOf o (lookup "error" (reported h e o))
  reported-error e none = inl (refl, refl)
  reported-error e (some m) = inr (m, error_type h e, refl, refl)

  past_terminating :
      (e : EventBridgeEventToDdb) (rest : Item)
      → lookup "error" (terminating e ++ rest) ≡ lookup "error" rest
  past_terminating e rest = elim (Bool-cases (e.status == "TERMINATED")) [
    | inl t ↦ rw t refl
    | inr t ↦ rw t refl
  ]

  update_request-IsReport : (e : EventBridgeEventToDdb) → IsReport e (update_request h e)
  unfolding update_request
  update_request-IsReport e = record {
    status = refl;
    resource_type = elim (Bool-cases (e.status == "TERMINATED")) [
      | inl t ↦ inl ((eq_iff e.status "TERMINATED").0 t, rw t refl)
      | inr t ↦ inr (
        (λ k. false≢true (sym t ∙ (eq_iff e.status "TERMINATED").1 k)),
        rw t (reported-resource e (truthy e.error_msg)),
      )
    ];
    error =
        subst (IsErrorOf (truthy e.error_msg))
          (sym (past_terminating e (reported h e (truthy e.error_msg))))
          (reported-error e (truthy e.error_msg));
  }

  -- The project's SDK is asked for, a terminated environment's stack leaves the application registry, and the
  -- environment is updated; but for a launch, that is all.
  pub record IsReported (e : EventBridgeEventToDdb) (m : EventMetadata) (env : Environment)
      (env_id : String) (w w' : W) : Type 0 where
    pub project : ProjectDependency
    pub of_project : env.proj ≡ some project
    pub sdk : HostSdk W
    pub w1 : W
    pub asked :
        h.get_aws_sdk_for_env_mgmt_role project.env_mgmt_role_arn project.external_id
          ("StatusHandler-" <> or_else e.operation "undefined")
          m.env_type
          w
        ≡ (ok sdk, w1)
    pub w2 : W
    pub left :
        ((e.status ≡ "TERMINATED")
          × (sdk.disassociate_stack_to_app_registry (app_registry_of h m) (stack_of h m env) w1
              ≡ (ok tt, w2)))
        ⊎ ((e.status ≢ "TERMINATED") × (w2 ≡ w1))
    pub values : Item
    pub report : IsReport e values
    pub w3 : W
    pub updated : Environment
    pub written : update_environment h.table env_id values w2 ≡ (ok updated, w3)
    pub ends : (e.operation ≡ some "Launch") ⊎ (w' ≡ w3)

  left_registry :
      (sdk : HostSdk W) (e : EventBridgeEventToDdb) (m : EventMetadata) (env : Environment) (w : W)
      → let leave = leave_app_registry h sdk e m env in
        (leave w).0 ≡ ok tt
        → ((e.status ≡ "TERMINATED")
            × (sdk.disassociate_stack_to_app_registry (app_registry_of h m) (stack_of h m env) w
                ≡ (ok tt, (leave w).1)))
          ⊎ ((e.status ≢ "TERMINATED") × ((leave w).1 ≡ w))
  left_registry sdk e m env w returned = elim (Bool-cases (e.status == "TERMINATED")) [
    | inl t ↦
        let same : leave_app_registry h sdk e m env w
            ≡ sdk.disassociate_stack_to_app_registry (app_registry_of h m) (stack_of h m env) w =
          rw (leave_app_registry, t) refl in
        inl (
          (eq_iff e.status "TERMINATED").0 t,
          sym same ∙ ap (λ x. (x, (leave_app_registry h sdk e m env w).1)) returned,
        )
    | inr t ↦ inr (
      (λ k. false≢true (sym t ∙ (eq_iff e.status "TERMINATED").1 k)),
      rw (leave_app_registry, t) refl,
    )
  ]

  needed-some :
      (o : Option ProjectDependency) {p : ProjectDependency} → needed o ≡ ok p → o ≡ some p
  needed-some none n = absurd (ground arith)
  needed-some (some q) n = ap some (ok_injective n)

  ended :
      (b : Bool) (sdk : HostSdk W) (e : EventBridgeEventToDdb) (m : EventMetadata)
      (env : Environment) (id : String) (w : W)
      → (b ≡ true) ⊎ ((finish_launch h b sdk e m env id w).1 ≡ w)
  ended true sdk e m env id w = inl refl
  ended false sdk e m env id w = inr refl

  -- An event that is applied, and returns, is reported as described.
  pub apply_event-IsReported :
      (e : EventBridgeEventToDdb) (m : EventMetadata) (env : Environment) (env_id : String) (w : W)
      → (apply_event h e m env env_id w).0 ≡ ok tt
      → IsReported e m env env_id w (apply_event h e m env env_id w).1
  unfolding apply_event
  apply_event-IsReported e m env env_id w returned =
      let update = update_environment h.table env_id (update_request h e) in
      let finish = λ (sdk : HostSdk W). finish_launch h (is_launch e) sdk e m env env_id in
      let leave = λ (sdk : HostSdk W). leave_app_registry h sdk e m env in
      let get = λ (p : ProjectDependency).
        h.get_aws_sdk_for_env_mgmt_role p.env_mgmt_role_arn p.external_id
          ("StatusHandler-" <> or_else e.operation "undefined") m.env_type in
      let on_sdk = λ (sdk : HostSdk W). leave sdk >> (update >> finish sdk) in
      let of_project = lift {W = W} (needed env.proj) in
      let (project, is_project, h1) = bind-ok of_project (λ p. get p >>= on_sdk) w returned in
      let (sdk, asked, h2) = bind-ok (get project) on_sdk w h1 in
      let w1 = (get project w).1 in
      let (u, left, h3) = bind-ok (leave sdk) (λ _. update >> finish sdk) w1 h2 in
      let w2 = (leave sdk w1).1 in
      let (updated, written, h4) = bind-ok update (λ _. finish sdk) w2 h3 in
      let w3 = (update w2).1 in
      let whole : apply_event h e m env env_id w ≡ finish sdk w3 =
        bind-on of_project (λ p. get p >>= on_sdk) w is_project
        ∙ bind-on (get project) on_sdk w asked
        ∙ bind-on (leave sdk) (λ _. update >> finish sdk) w1 left
        ∙ bind-on update (λ _. finish sdk) w2 written in
      record {
        project = project;
        of_project = needed-some env.proj is_project;
        sdk = sdk;
        w1 = w1;
        asked = ap (λ x. (x, w1)) asked;
        w2 = w2;
        left = left_registry sdk e m env w1 left;
        values = update_request h e;
        report = update_request-IsReport e;
        w3 = w3;
        updated = updated;
        written = ap (λ x. (x, w3)) written;
        ends = elim (ended (is_launch e) sdk e m env env_id w3) [
          | inl launch ↦ inl (same_option-some e.operation "Launch" launch)
          | inr nothing ↦ inr (ap (λ x. x.1) whole ∙ nothing)
        ];
      }

  -- Where the table's reads change nothing, an event whose handling returns either leaves everything as it
  -- was, or is applied as it may be, and reported: the SDK of the environment's project is asked for, the
  -- stack of a terminated environment leaves the application registry, the environment's status is set to
  -- the event's, with the error's message if there is one, and, but for a launch, nothing else is done.
  pub execute-IsReported :
      (reads : IsReadOnly h.table) (e : EventBridgeEventToDdb) (w : W)
      → (execute h e w).0 ≡ ok tt
      → ((execute h e w).1 ≡ w)
        ⊎ ((a : IsApplied h reads e w) × IsReported e a.metadata a.env a.env_id w (execute h e w).1)
  execute-IsReported reads e w returned = elim (execute-IsApplied h reads e w) [
    | inl kept ↦ inl kept
    | inr a ↦ inr (
      a,
      subst (λ x. IsReported e a.metadata a.env a.env_id w x) (sym (ap (λ x. x.1) a.effect))
          (apply_event-IsReported e a.metadata a.env a.env_id w
            (sym (ap (λ x. x.0) a.effect) ∙ returned)),
    )
  ]
