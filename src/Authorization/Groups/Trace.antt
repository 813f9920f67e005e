-- ===== src/Authorization/Groups/Trace.antt =====
-- Any sequence of calls of the group management plugin.
use mathlib.Core.Bool.{false≢true}
use research_service_workben.Base.{
  ℕ, suc, String, Option, none, some, List, [], ◌∷◌, ◌≡◌, sym, ◌∙◌, ap, take, arith, part, split,
}
use research_service_workben.Authorization.GroupPlugin.{Call, perform, perform_all}
use research_service_workben.Authorization.Groups.{
  GroupTable, UserManagement, has_status, delete_group, get_user_groups, get_group_users,
  is_user_assigned_to_group, remove_user_from_group, does_group_exist, validate_user_groups,
  wbc_group_management_plugin,
}
use research_service_workben.Authorization.Groups.Lifecycle.{
  IsTable, KeepsView, Step, stay, activate, lock, remove, create_group-Step, set_group_status-Step,
  add_user_to_group_same, get_group_status_same,
}

module _ {W : Type 0} (t : GroupTable W) (u : UserManagement W) (view : W → String → Option String)
    (table : IsTable t view) (roles : KeepsView u view) where
  abbrev run : List Call → W → W
  run = perform_all (wbc_group_management_plugin t u)

  -- Each call of a method of the plugin, whether it returns or throws, moves each group by at most
  -- one step of the lifecycle: absent to active, active or delete_pending to delete_pending,
  -- delete_pending to absent.
  pub perform-Step :
      (call : Call) (w : W) (j : String)
      → Step (view w j) (view (perform (wbc_group_management_plugin t u) call w) j)
  unfolding perform delete_group get_user_groups get_group_users is_user_assigned_to_group
      remove_user_from_group does_group_exist validate_user_groups
  perform-Step (Call.create_group k) w j = create_group-Step t u view table roles k w j
  perform-Step (Call.set_group_status k s) w j = set_group_status-Step t u view table roles k s w j
  perform-Step (Call.delete_group k) w j = stay (ground (arith, roles.delete_role k w j))
  perform-Step (Call.get_user_groups i) w j = stay (ground (arith, roles.get_user_roles i w j))
  perform-Step (Call.get_group_users k) w j = stay (
      ground (arith, roles.list_users_for_role (part 1 (split b'#' k)) (part 0 (split b'#' k)) w j))
  perform-Step (Call.get_group_status k) w j =
      stay (sym (get_group_status_same t u view table roles k w j))
  perform-Step (Call.does_group_exist k) w j =
      stay (ground (arith, get_group_status_same t u view table roles k w j))
  perform-Step (Call.add_user_to_group i k) w j =
      stay (sym (add_user_to_group_same t u view table roles i k w j))
  perform-Step (Call.is_user_assigned_to_group i k) w j =
      stay (ground (arith, roles.get_user_roles i w j))
  perform-Step (Call.remove_user_from_group i k) w j =
      stay (ground (arith, roles.remove_user_from_role i k w j))
  perform-Step (Call.validate_user_groups i ks) w j =
      stay (ground (arith, roles.validate_user_roles i ks w j))

  -- An active group that some sequence of calls makes vanish was locked on the way: after some
  -- first part of the calls it is delete_pending.
  pub vanished-delete_pending :
      (calls : List Call) (w : W) (k : String)
      → view w k ≡ some "active"
      → view (run calls w) k ≡ none
      → (n : ℕ) × (view (run (take n calls) w) k ≡ some "delete_pending")
  unfolding perform_all
  vanished-delete_pending [] w k start gone = absurd (ground arith)
  vanished-delete_pending (call ∷ calls) w k start gone = go (perform-Step call w k) (λ here.
      vanished-delete_pending calls (perform (wbc_group_management_plugin t u) call w) k here gone)
    where
      next : W
      next = perform (wbc_group_management_plugin t u) call w

      go :
          Step (view w k) (view next k)
          → (view next k ≡ some "active"
              → (n : ℕ) × (view (run (take n calls) next) k ≡ some "delete_pending"))
          → (n : ℕ) × (view (run (take n (call ∷ calls)) w) k ≡ some "delete_pending")
      go (stay e) ih = let (n, h) = ih (sym e ∙ start) in (suc n, h)
      go (activate e a) ih = absurd (ground arith)
      go (lock e a) ih = (1, a)
      go (remove e a) ih = absurd (false≢true (ap (has_status "delete_pending") (sym start ∙ e)))
