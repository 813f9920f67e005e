-- ===== src/Authorization/Dynamic/Instance.antt =====
-- The dynamic authorization service over the plugin of wbcGroupManagementPlugin.ts.
use research_service_workben.Base.{String, Option, List, Keeps, arith, Async}
use research_service_workben.Audit.{Metadata}
use research_service_workben.Authorization.Models.{IdentityPermission}
use research_service_workben.Authorization.PermissionsPlugin.{
  IdentityQuery, DynamicAuthorizationPermissionsPlugin,
}
use research_service_workben.Authorization.Casl.{Casl}
use research_service_workben.Authorization.Groups.{
  GroupTable, UserManagement, wbc_group_management_plugin, delete_group,
}
use research_service_workben.Authorization.Groups.Lifecycle.{
  IsTable, KeepsView, get_group_status_same, set_group_status-locks, set_group_status-removes,
}
use research_service_workben.Authorization.Service.{Plugins}
use research_service_workben.Authorization.Dynamic.Deletion.{IsLifecycle}

module _ {W : Type 0} (t : GroupTable W) (u : UserManagement W) (view : W → String → Option String)
    (table : IsTable t view) (roles : KeepsView u view)
    (permissions : DynamicAuthorizationPermissionsPlugin W) (casl : Casl)
    (write : Metadata → Async W (Unit {0})) (escape : String → String)
    (reads : (q : IdentityQuery) (k : String)
      → Keeps (λ w. view w k) (permissions.get_identity_permissions_by_identity q))
    (deletions : (ps : List IdentityPermission) (k : String)
      → Keeps (λ w. view w k) (permissions.delete_identity_permissions ps))
    (logs : (m : Metadata) (k : String) → Keeps (λ w. view w k) (write m)) where
  abbrev pub plugins : Plugins W
  plugins = record {
    groups = wbc_group_management_plugin t u;
    permissions = permissions;
    casl = casl;
    write = write;
    escape_reg_exp = escape;
  }

  delete_group-Keeps : (k : String) → Keeps (λ w. view w k) (delete_group t u k)
  unfolding delete_group
  delete_group-Keeps k w = ground (arith, roles.delete_role k w k)

  pub plugins-IsLifecycle : (k : String) → IsLifecycle plugins view k
  plugins-IsLifecycle k = record {
    audit = λ m. logs m k;
    reads = λ q. reads q k;
    deletions = λ ps. deletions ps k;
    status = λ w. get_group_status_same t u view table roles k w k;
    role = delete_group-Keeps k;
    locks = λ w. (set_group_status-locks t u view table roles k w).0;
    lock_failed = λ w. (set_group_status-locks t u view table roles k w).1;
    removes = λ w. (set_group_status-removes t u view table roles k w).0;
    remove_failed = λ w. (set_group_status-removes t u view table roles k w).1;
  }
