-- ===== src/Authorization/Tests.antt =====
-- Runs of the authorization on small inputs.
use research_service_workben.Base.{
  take, collect, ℕ, ◌≤◌, true, none, some, List, [], ◌∷◌, map, ◌≡◌, refl, ◌↔◌, ◌⊎◌, ok, All, pure,
  length,
}
use research_service_workben.Audit.{audited}
use research_service_workben.Authorization.Models.{deny, IdentityPermission}
use research_service_workben.Authorization.Casl.{
  identity_rule, identity_conditions, dynamic_request, is_authorized_on_dynamic_operations,
  throw_unless_can, define_abilities_for_identity_permissions,
}
use research_service_workben.Authorization.Casl.Deny.{
  MayAll, is_authorized_on_dynamic_operations_iff,
}
use research_service_workben.Authorization.Static.{next, check_method}
use research_service_workben.Authorization.GroupPlugin.{NewStatus, Call, perform, perform_all}
use research_service_workben.Authorization.Groups.{
  wbc_group_management_plugin, get_group_status, set_group_status, validate_user_groups,
}
use research_service_workben.Authorization.Groups.Lifecycle.{Step}
use research_service_workben.Authorization.Groups.Trace.{perform-Step, vanished-delete_pending}
use research_service_workben.Authorization.Template.{replace_params, scan, render}
use research_service_workben.Authorization.Service.{
  Plugins, inject_operation, inject_params, with_audit, group_ids_from, add_group,
}
use research_service_workben.Authorization.Dynamic.{
  is_authorized_on_route, is_authorized_on_subject, check_route, check_ignored, check_protected,
  check_operations, check_subject, check_identities, get_subject_permissions,
  get_all_identity_permissions_by_subject, create_identity_permissions, create_permissions,
  create_for_statuses, delete_group,
}
use research_service_workben.Authorization.Dynamic.Access.{
  IsCleared, is_authorized_on_route-IsCleared,
}
use research_service_workben.Authorization.Dynamic.Creation.{
  Checked, create_identity_permissions-WasActive,
}
use research_service_workben.Authorization.Dynamic.Deletion.{Ended, delete_group-Ended}
use research_service_workben.Authorization.Dynamic.Instance.{plugins, plugins-IsLifecycle}
use research_service_workben.Authorization.Middleware.{
  with_dynamic_auth, answer_within, admit, pass_or_check, check_user, is_valid_user,
}
use research_service_workben.Authorization.Middleware.Admission.{
  IsAdmitted, with_dynamic_auth-IsAdmitted,
}
use research_service_workben.Authorization.Samples.{
  Statuses, view, table, directory, table-IsTable, directory-KeepsView, researchers_active, alice,
  casl, may_read, read_d1, permissions,
}

abbrev service : Plugins Statuses
service =
    plugins table directory view table-IsTable directory-KeepsView permissions casl (λ m. pure tt)
      (λ s. s) (λ q k w. refl) (λ ps k w. refl) (λ m k w. refl)

alice_reads_d1 :
    (is_authorized_on_route service 3 alice "/datasets/d1" "GET" [] researchers_active).0 ≡ ok tt
unfolding is_authorized_on_route check_route check_ignored check_protected check_operations
    is_authorized_on_subject check_subject check_identities get_subject_permissions
    get_all_identity_permissions_by_subject inject_operation inject_params replace_params scan
    render with_audit audited validate_user_groups is_authorized_on_dynamic_operations
    throw_unless_can define_abilities_for_identity_permissions identity_rule identity_conditions
    dynamic_request collect
alice_reads_d1 = refl

is_authorized_on_route-IsCleared_example :
    ((permissions.is_route_ignored "/datasets/d1" "GET" researchers_active).0 ≡ ok true)
    ⊎ IsCleared service 3 alice "/datasets/d1" "GET" []
is_authorized_on_route-IsCleared_example =
    is_authorized_on_route-IsCleared service 3 alice "/datasets/d1" "GET" [] researchers_active
      alice_reads_d1

alice_passes :
    (with_dynamic_auth service
      (λ ip. pure tt)
      3
      "10.0.0.1"
      (some alice)
      "/datasets/d1"
      "GET"
      researchers_active).0
    ≡ ok next
unfolding with_dynamic_auth answer_within admit pass_or_check check_user is_valid_user check_method
    is_authorized_on_route check_route check_ignored check_protected check_operations
    is_authorized_on_subject check_subject check_identities get_subject_permissions
    get_all_identity_permissions_by_subject inject_operation inject_params replace_params scan
    render with_audit audited validate_user_groups is_authorized_on_dynamic_operations
    throw_unless_can define_abilities_for_identity_permissions identity_rule identity_conditions
    dynamic_request collect
alice_passes = refl

with_dynamic_auth-IsAdmitted_example :
    (check_method "GET" ≡ true)
    × IsAdmitted service (λ ip. pure tt) 3 (some alice) "/datasets/d1" "GET"
with_dynamic_auth-IsAdmitted_example =
    with_dynamic_auth-IsAdmitted service (λ ip. pure tt) 3 (some alice) "/datasets/d1" "GET"
      "10.0.0.1" researchers_active alice_passes

abbrev never_read : IdentityPermission
never_read = record may_read { effect = deny }

is_authorized_on_dynamic_operations_iff_example :
    (is_authorized_on_dynamic_operations casl (never_read ∷ may_read ∷ []) (read_d1 ∷ []) ≡ ok tt)
    ↔ MayAll
        (λ p. p.effect)
        identity_rule
        casl
        (never_read ∷ may_read ∷ [])
        (map dynamic_request (read_d1 ∷ []))
is_authorized_on_dynamic_operations_iff_example =
    is_authorized_on_dynamic_operations_iff casl (never_read ∷ may_read ∷ []) (read_d1 ∷ [])

delete_group-Ended_example :
    Ended service view "researchers"
      (plugins-IsLifecycle table directory view table-IsTable directory-KeepsView permissions casl
        (λ m. pure tt)
        (λ s. s)
        (λ q k w. refl)
        (λ ps k w. refl)
        (λ m k w. refl)
        "researchers")
      researchers_active
      (delete_group service 3 alice "researchers" researchers_active)
delete_group-Ended_example =
    delete_group-Ended service view "researchers"
      (plugins-IsLifecycle table directory view table-IsTable directory-KeepsView permissions casl
        (λ m. pure tt) (λ s. s) (λ q k w. refl) (λ ps k w. refl) (λ m k w. refl) "researchers")
      3 alice researchers_active

perform-Step_example : Step (view researchers_active "researchers") (
    view
      (perform
        (wbc_group_management_plugin table directory)
        (Call.set_group_status "researchers" NewStatus.delete_pending)
        researchers_active)
      "researchers")
perform-Step_example =
    perform-Step table directory view table-IsTable directory-KeepsView
      (Call.set_group_status "researchers" NewStatus.delete_pending) researchers_active
      "researchers"

abbrev lock_and_remove : List Call
lock_and_remove =
    Call.set_group_status "researchers" NewStatus.delete_pending
    ∷ Call.set_group_status "researchers" NewStatus.deleted
    ∷ []

removed :
    view
      (perform_all (wbc_group_management_plugin table directory) lock_and_remove researchers_active)
      "researchers"
    ≡ none
unfolding perform_all perform set_group_status
removed = refl

vanished-delete_pending_example :
    (n : ℕ) × (view
        (perform_all
          (wbc_group_management_plugin table directory)
          (take n lock_and_remove)
          researchers_active)
        "researchers"
      ≡ some "delete_pending")
vanished-delete_pending_example =
    vanished-delete_pending table directory view table-IsTable directory-KeepsView lock_and_remove
      researchers_active "researchers" refl removed

created :
    (create_identity_permissions service alice (may_read ∷ []) researchers_active).0
    ≡ ok (may_read ∷ [])
unfolding create_identity_permissions create_permissions create_for_statuses group_ids_from
    add_group with_audit audited get_group_status
created = refl

create_identity_permissions-WasActive_example :
    (length (may_read ∷ []) ≤ 100)
    × All
        (λ (p : IdentityPermission). Checked service p.identity_type p.identity_id)
        (may_read ∷ [])
create_identity_permissions-WasActive_example =
    create_identity_permissions-WasActive service alice (may_read ∷ []) (may_read ∷ [])
      researchers_active created
