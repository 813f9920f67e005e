-- ===== src/Authorization/Dynamic/Deletion.antt =====
-- Deleting a group: what is left of it, however the call ends.
use research_service_workben.Base.{
  ℕ, String, Option, none, some, List, [], ◌≡◌, ◌≢◌, refl, ◌∙◌, ◌⊎◌, inl, inr, Result, ok, err,
  hang, Async, Keeps, Keeps-promise_all, Keeps-collect, chunk, promise_all, ◌>>◌, arith,
  Result-split, Bool-cases,
}
use research_service_workben.Audit.{Metadata, audited}
use research_service_workben.Authorization.Models.{
  AuthenticatedUser, IdentityType, group, IdentityPermission,
}
use research_service_workben.Authorization.GroupPlugin.{NewStatus}
use research_service_workben.Authorization.PermissionsPlugin.{IdentityQuery}
use research_service_workben.Authorization.Dynamic.Access.{with_audit-ok}
use research_service_workben.Authorization.Service.{Plugins, with_audit, with_status}
use research_service_workben.Authorization.Dynamic.{
  delete_identity_permissions, get_all_identity_permissions_by_identity,
  delete_all_identity_permissions_by_identity, has_group_status, remove_locked, remove_group,
  delete_group,
}

-- What the deletion of a group relies on: only the status operations of the group plugin touch a
-- group's status, and these as the group's lifecycle says. Dynamic/Instance.antt meets this with the
-- plugin of wbcGroupManagementPlugin.ts.
pub record IsLifecycle {W : Type 0} (s : Plugins W) (view : W → String → Option String) (k : String)
    : Type 0 where
  pub audit : (m : Metadata) → Keeps (λ w. view w k) (s.write m)
  pub reads :
      (q : IdentityQuery)
      → Keeps (λ w. view w k) (s.permissions.get_identity_permissions_by_identity q)
  pub deletions :
      (ps : List IdentityPermission)
      → Keeps (λ w. view w k) (s.permissions.delete_identity_permissions ps)
  pub status : Keeps (λ w. view w k) (s.groups.get_group_status k)
  pub role : Keeps (λ w. view w k) (s.groups.delete_group k)
  pub locks :
      (w : W) (n : NewStatus)
      → (s.groups.set_group_status k NewStatus.delete_pending w).0 ≡ ok n
      → view (s.groups.set_group_status k NewStatus.delete_pending w).1 k ≡ some "delete_pending"
  pub lock_failed :
      (w : W)
      → ((n : NewStatus) → (s.groups.set_group_status k NewStatus.delete_pending w).0 ≢ ok n)
      → view (s.groups.set_group_status k NewStatus.delete_pending w).1 k ≡ view w k
  pub removes :
      (w : W) (n : NewStatus)
      → (s.groups.set_group_status k NewStatus.deleted w).0 ≡ ok n
      → view (s.groups.set_group_status k NewStatus.deleted w).1 k ≡ none
  pub remove_failed :
      (w : W)
      → ((n : NewStatus) → (s.groups.set_group_status k NewStatus.deleted w).0 ≢ ok n)
      → view (s.groups.set_group_status k NewStatus.deleted w).1 k ≡ view w k

module _ {W : Type 0} (s : Plugins W) (view : W → String → Option String) (k : String)
    (laws : IsLifecycle s view k) where
  abbrev at_k : W → Option String
  at_k w = view w k

  -- Auditing a call leaves the status as the call left it.
  with_audit-after :
      {A : Type 0} (u : AuthenticatedUser) (name : String) (body : Async W A) (w : W)
      → at_k (with_audit s u name body w).1 ≡ at_k (body w).1
  unfolding with_audit audited
  with_audit-after u name body w =
      let success = with_status u name 200 in
      let failure = with_status u name 400 in
      let after = (body w).1 in
      ground (
        arith,
        laws.audit success after,
        laws.audit failure after,
        laws.audit failure (s.write success after).1,
      )

  with_audit-Keeps :
      {A : Type 0} (u : AuthenticatedUser) (name : String) (body : Async W A)
      → Keeps at_k body
      → Keeps at_k (with_audit s u name body)
  with_audit-Keeps u name body h w = with_audit-after u name body w ∙ h w

  get_all-Keeps :
      (fuel : ℕ) (id : String) (t : IdentityType)
      → Keeps at_k (get_all_identity_permissions_by_identity s fuel id t)
  unfolding get_all_identity_permissions_by_identity
  get_all-Keeps fuel id t = Keeps-collect at_k _ (λ token. laws.reads _) fuel none []

  delete_chunks-Keeps :
      (u : AuthenticatedUser) (cs : List (List IdentityPermission))
      → Keeps at_k (promise_all (delete_identity_permissions s u) cs)
  unfolding delete_identity_permissions
  delete_chunks-Keeps u cs =
      Keeps-promise_all at_k _
        (λ c. with_audit-Keeps u "deleteIdentityPermissions" _ (laws.deletions c)) cs

  delete_all-Keeps :
      (fuel : ℕ) (u : AuthenticatedUser) (id : String) (t : IdentityType)
      → Keeps at_k (delete_all_identity_permissions_by_identity s fuel u id t)
  unfolding delete_all_identity_permissions_by_identity
  delete_all-Keeps fuel u id t w =
      let read = get_all_identity_permissions_by_identity s fuel id t in
      elim (Result-split (read w).0) [
        | inl (ps, e) ↦
            ground
              (arith, get_all-Keeps fuel id t w, delete_chunks-Keeps u (chunk 100 ps) (read w).1)
        | inr (inl (x, e)) ↦ ground (arith, get_all-Keeps fuel id t w)
        | inr (inr e) ↦ ground (arith, get_all-Keeps fuel id t w)
      ]

  has_group_status-Keeps : Keeps at_k (has_group_status s k)
  unfolding has_group_status
  has_group_status-Keeps w = ground (arith, laws.status w)

  -- The end of the deletion, behind the lock.
  locked_end :
      (fuel : ℕ) (u : AuthenticatedUser) (w : W)
      → view w k ≡ some "delete_pending"
      → let (r, w') = remove_locked s fuel u k w in
        ((view w' k ≡ some "delete_pending") ⊎ (view w' k ≡ none))
        × ((id : String) → r ≡ ok id → view w' k ≡ none)
  unfolding remove_locked
  locked_end fuel u w locked =
      let delete_all = delete_all_identity_permissions_by_identity s fuel u k group in
      let w1 = (delete_all w).1 in
      let w2 = (s.groups.delete_group k w1).1 in
      let set = s.groups.set_group_status k NewStatus.deleted w2 in
      elim (Result-split set.0) [
        | inl (n, e) ↦
            ground (arith, delete_all-Keeps fuel u k group w, laws.role w1, laws.removes w2 n e)
        | inr (inl (x, e)) ↦ ground (
          arith,
          delete_all-Keeps fuel u k group w,
          laws.role w1,
          laws.remove_failed w2 (λ n. cc),
        )
        | inr (inr e) ↦ ground (
          arith,
          delete_all-Keeps fuel u k group w,
          laws.role w1,
          laws.remove_failed w2 (λ n. cc),
        )
      ]

  -- How a deletion may leave the group.
  abbrev pub Outcome : W → Result String × W → Type 0
  Outcome w (r, w') =
      ((view w' k ≡ view w k) ⊎ (view w' k ≡ some "delete_pending") ⊎ (view w' k ≡ none))
      × ((id : String) → r ≡ ok id → view w' k ≡ none)

  lock_and_remove-Outcome :
      (fuel : ℕ) (u : AuthenticatedUser) (w : W)
      → Outcome w
          ((s.groups.set_group_status k NewStatus.delete_pending >> remove_locked s fuel u k) w)
  lock_and_remove-Outcome fuel u w =
      let lock = s.groups.set_group_status k NewStatus.delete_pending w in
      elim (Result-split lock.0) [
        | inl (n, e) ↦
            let (left, gone) = locked_end fuel u lock.1 (laws.locks w n e) in
            ground (arith, left, gone)
        | inr (inl (x, e)) ↦ ground (arith, laws.lock_failed w (λ n. cc))
        | inr (inr e) ↦ ground (arith, laws.lock_failed w (λ n. cc))
      ]

  remove_group-Outcome :
      (fuel : ℕ) (u : AuthenticatedUser) (w : W) → Outcome w (remove_group s fuel u k w)
  unfolding remove_group
  remove_group-Outcome fuel u w =
      let asked = has_group_status s k w in
      let kept = has_group_status-Keeps w in
      elim (Result-split asked.0) [
        | inl (known, e) ↦ elim (Bool-cases known) [
          | inl here ↦
              let (left, gone) = lock_and_remove-Outcome fuel u asked.1 in
              ground (arith, kept, left, gone)
          | inr missing ↦ ground (arith, kept)
        ]
        | inr (inl (x, e)) ↦ ground (arith, kept)
        | inr (inr e) ↦ ground (arith, kept)
      ]

  delete_group-Outcome :
      (fuel : ℕ) (u : AuthenticatedUser) (w : W) → Outcome w (delete_group s fuel u k w)
  unfolding delete_group
  delete_group-Outcome fuel u w =
      let body = remove_group s fuel u k in
      let after = with_audit-after u "deleteGroup" body w in
      let (left, gone) = remove_group-Outcome fuel u w in
      (
        ground (arith, after, left),
        λ id e. after ∙ gone id (with_audit-ok s u "deleteGroup" body w e),
      )

  -- Where the deletion throws or does not come back, the group may be as before, locked or gone.
  abbrev pub Ended : W → Result String × W → Type 0
  Ended w (ok id, w') = view w' k ≡ none
  Ended w (err e, w') =
      (view w' k ≡ view w k) ⊎ (view w' k ≡ some "delete_pending") ⊎ (view w' k ≡ none)
  Ended w (hang, w') =
      (view w' k ≡ view w k) ⊎ (view w' k ≡ some "delete_pending") ⊎ (view w' k ≡ none)

  Outcome-Ended : (w : W) (r : Result String × W) → Outcome w r → Ended w r
  Outcome-Ended w (ok id, w') h = h.1 id refl
  Outcome-Ended w (err e, w') h = h.0
  Outcome-Ended w (hang, w') h = h.0

  -- Over plugins of which only the status operations touch the status of the group `k`: if
  -- `deleteGroup` returns, the group is gone; if it throws, whatever call of it failed, or does not
  -- come back, the group's status is as before, or delete_pending, or it is gone.
  pub delete_group-Ended :
      (fuel : ℕ) (u : AuthenticatedUser) (w : W) → Ended w (delete_group s fuel u k w)
  delete_group-Ended fuel u w = Outcome-Ended w _ (delete_group-Outcome fuel u w)
