-- ===== src/Authorization/Dynamic/Access.antt =====
-- What it takes to be let through a route or to a subject.
use research_service_workben.Base.{
  ℕ, String, Bool, true, false, List, [], ◌∷◌, ◌++◌, map, ◌≡◌, refl, ap, ◌∙◌, ◌⊎◌, inl, inr, ok,
  Async, Dict, All, for_each, map_result, lift, bind-ok, arith,
}
use research_service_workben.Audit.{audited-ok}
use research_service_workben.Authorization.Models.{
  AuthenticatedUser, IdentityPermission, DynamicOperation,
}
use research_service_workben.Authorization.Casl.{
  identity_rule, dynamic_request, is_authorized_on_dynamic_operations,
}
use research_service_workben.Authorization.Casl.Deny.{
  MayAll, is_authorized_on_dynamic_operations_iff,
}
use research_service_workben.Authorization.PermissionsPlugin.{RouteOperations}
use research_service_workben.Authorization.Service.{
  Plugins, with_audit, combined, inject_operation, group_identity, user_identity,
}
use research_service_workben.Authorization.Dynamic.{
  get_subject_permissions, is_authorized_on_subject, check_route, check_identities, check_subject,
  check_operations, check_protected, check_ignored, is_authorized_on_route,
}

module _ {W : Type 0} (s : Plugins W) (u : AuthenticatedUser) where
  pub with_audit-ok :
      {A : Type 0} (name : String) (body : Async W A) (w : W) {a : A}
      → (with_audit s u name body w).0 ≡ ok a
      → (body w).0 ≡ ok a
  unfolding with_audit
  with_audit-ok name body w h = audited-ok s.write _ _ body w h

module _ {W : Type 0} (s : Plugins W) (fuel : ℕ) (u : AuthenticatedUser) where
  -- The user's access to the subject of an operation: the permissions of the user and of the
  -- user's valid groups, on the subject or the wildcard, hold an ALLOW that matches the operation
  -- and no DENY that does.
  pub record HasAccess (op : DynamicOperation) : Type 0 where
    pub start : W
    pub groups : List String
    pub valid : (s.groups.validate_user_groups u.id u.roles start).0 ≡ ok groups
    pub permissions : List IdentityPermission
    pub found :
        (get_subject_permissions s fuel op
          (map group_identity groups ++ user_identity u.id ∷ [])
          (s.groups.validate_user_groups u.id u.roles start).1).0
        ≡ ok permissions
    pub may : MayAll (λ p. p.effect) identity_rule s.casl permissions (dynamic_request op ∷ [])

  check_subject-HasAccess :
      (op : DynamicOperation) (w : W) → (check_subject s fuel u op w).0 ≡ ok tt → HasAccess op
  unfolding check_subject check_identities
  check_subject-HasAccess op w h =
      let identities = λ (ids : List String). map group_identity ids ++ user_identity u.id ∷ [] in
      let (ids, valid, rest) =
        bind-ok (s.groups.validate_user_groups u.id u.roles)
          (λ ids. check_identities s fuel op (identities ids)) w h in
      let (ps, found, allowed) =
        bind-ok (get_subject_permissions s fuel op (identities ids))
          (λ ps. lift (is_authorized_on_dynamic_operations s.casl ps (op ∷ [])))
          (s.groups.validate_user_groups u.id u.roles w).1 rest in
      record {
        start = w;
        groups = ids;
        valid = valid;
        permissions = ps;
        found = found;
        may = (is_authorized_on_dynamic_operations_iff s.casl ps (op ∷ [])).0 allowed;
      }

  -- A user that `isAuthorizedOnSubject` lets through has access.
  pub is_authorized_on_subject-HasAccess :
      (op : DynamicOperation) (w : W)
      → (is_authorized_on_subject s fuel u op w).0 ≡ ok tt
      → HasAccess op
  unfolding is_authorized_on_subject
  is_authorized_on_subject-HasAccess op w h =
      check_subject-HasAccess op w
        (with_audit-ok s u "isAuthorizedOnSubject" (check_subject s fuel u op) w h)

  for_each-All :
      (ops : List DynamicOperation) (w : W)
      → (for_each (is_authorized_on_subject s fuel u) ops w).0 ≡ ok tt
      → All HasAccess ops
  for_each-All [] w h = tt
  for_each-All (op ∷ ops) w h =
      let (done, here, later) =
        bind-ok (is_authorized_on_subject s fuel u op)
          (λ _. for_each (is_authorized_on_subject s fuel u) ops) w h in
      (
        is_authorized_on_subject-HasAccess op w here,
        for_each-All ops (is_authorized_on_subject s fuel u op w).1 later,
      )

  -- The operations that a route asks for, with the parameters of the request put in.
  pub record IsCleared (route method : String) (params : Dict String) : Type 0 where
    pub start : W
    pub found : RouteOperations
    pub asked : (s.permissions.get_dynamic_operations_by_route route method start).0 ≡ ok found
    pub operations : List DynamicOperation
    pub injected :
        map_result
          (inject_operation (combined s.escape_reg_exp found.path_params params))
          found.dynamic_operations
        ≡ ok operations
    pub access : All HasAccess operations

  module _ (route method : String) (params : Dict String) where
    check_protected-IsCleared :
        (b : Bool) (w : W)
        → (check_protected s fuel u route method params b w).0 ≡ ok tt
        → (b ≡ true) × IsCleared route method params
    unfolding check_protected check_operations
    check_protected-IsCleared false w h = absurd (ground arith)
    check_protected-IsCleared true w h =
        let (found, asked, rest) =
          bind-ok (s.permissions.get_dynamic_operations_by_route route method)
            (check_operations s fuel u params) w h in
        let next = (s.permissions.get_dynamic_operations_by_route route method w).1 in
        let injection =
          map_result (inject_operation (combined s.escape_reg_exp found.path_params params))
            found.dynamic_operations in
        let (ops, injected, each) =
          bind-ok (lift injection) (for_each (is_authorized_on_subject s fuel u)) next rest in
        (
          refl,
          record {
            start = w;
            found = found;
            asked = asked;
            operations = ops;
            injected = injected;
            access = for_each-All ops next each;
          },
        )

    check_ignored-IsCleared :
        (b : Bool) (w : W)
        → (check_ignored s fuel u route method params b w).0 ≡ ok tt
        → (b ≡ true) ⊎ IsCleared route method params
    unfolding check_ignored
    check_ignored-IsCleared true w h = inl refl
    check_ignored-IsCleared false w h =
        let (b, asked, rest) =
          bind-ok (s.permissions.is_route_protected route method)
            (check_protected s fuel u route method params) w h in
        inr (check_protected-IsCleared b (s.permissions.is_route_protected route method w).1 rest).1

    -- `isAuthorizedOnRoute` returns without an error only for a route that the permissions plugin
    -- calls ignored, or one whose dynamic operations, with the parameters of the path and of the
    -- request put in, the user has access to, every one of them.
    pub is_authorized_on_route-IsCleared :
        (w : W)
        → (is_authorized_on_route s fuel u route method params w).0 ≡ ok tt
        → ((s.permissions.is_route_ignored route method w).0 ≡ ok true)
          ⊎ IsCleared route method params
    unfolding is_authorized_on_route check_route
    is_authorized_on_route-IsCleared w h =
        let kept =
          with_audit-ok s u "isAuthorizedOnRoute" (check_route s fuel u route method params) w h in
        let (b, asked, rest) =
          bind-ok (s.permissions.is_route_ignored route method)
            (check_ignored s fuel u route method params) w kept in
        elim (check_ignored-IsCleared b (s.permissions.is_route_ignored route method w).1 rest) [
          | inl ignored ↦ inl (asked ∙ ap ok ignored)
          | inr cleared ↦ inr cleared
        ]
