-- ===== src/Datasets/Tests.antt =====
-- Runs of the data sets on small inputs.
use research_service_workben.Base.{
  none, some, [], ◌∷◌, ◌≡◌, refl, ok, All, Exists, pure, ◌>>?◌, collect,
}
use research_service_workben.Audit.{audited}
use research_service_workben.Authorization.Models.{user, read, update, IdentityPermission}
use research_service_workben.Authorization.Casl.{
  identity_rule, identity_conditions, dynamic_request, is_authorized_on_dynamic_operations,
  throw_unless_can, define_abilities_for_identity_permissions,
}
use research_service_workben.Authorization.Groups.{validate_user_groups, get_group_status}
use research_service_workben.Authorization.Service
use research_service_workben.Authorization.Service.{Plugins}
use research_service_workben.Authorization.Dynamic.{
  is_authorized_on_subject, check_subject, check_identities, get_subject_permissions,
  get_all_identity_permissions_by_subject,
}
use research_service_workben.Authorization.Dynamic.Access.{HasAccess}
use research_service_workben.Authorization.Dynamic.Instance.{plugins}
use research_service_workben.Authorization.Samples.{
  Statuses, view, table, directory, table-IsTable, directory-KeepsView, researchers_active, alice,
  casl, may_read, permissions,
}
use research_service_workben.Datasets.Models.{DataSet, ExternalEndpoint}
use research_service_workben.Datasets.Permissions.{
  on_data_set, is_authorized_on_data_set, data_set_permission_to_identity_permissions,
  identity_permissions_to_permissions_response, add_all, add_to_response, merge,
}
use research_service_workben.Datasets.Permissions.RoundTrip.{
  permissions_response-identity_permissions,
}
use research_service_workben.Datasets.Plugins.{wbc_data_sets_authorization_plugin, DataSetService}
use research_service_workben.Datasets.Service.{
  with_audit, get_data_set, read_more, remove_data_set, provision_data_set,
  update_new_data_set_permissions, initial_permissions, list_data_sets, read_visible, visible,
  cut_newest, sort_newest, insert_newest,
}
use research_service_workben.Datasets.Service.Reading.{IsServed, outcome, get_data_set-outcome}
use research_service_workben.Datasets.Service.Changes.{
  IsRemoved, remove_data_set-IsRemoved, IsProvisioned, provision_data_set-IsProvisioned,
}
use research_service_workben.Datasets.Service.Listing.{IsVisiblePage, list_data_sets-IsVisiblePage}
use research_service_workben.Datasets.Endpoints.{
  generate_mount_object, get_data_set_mount_object, get_external_end_point,
  get_authenticated_user_dataset_permissions, add_data_set_external_endpoint,
  add_data_set_external_endpoint_for_group, get_minimum_access_level,
  remove_data_set_external_endpoint,
}
use research_service_workben.Datasets.Endpoints.Access.{
  IsGranted, own_requests, get_data_set_mount_object-IsGranted,
}
use research_service_workben.Datasets.Endpoints.Attaching.{
  IsAttached, add_data_set_external_endpoint_for_group-IsAttached,
}
use research_service_workben.Datasets.Permissions.Level.{
  permissions_response-granted, level_on, granted,
}
use research_service_workben.Datasets.Samples.{
  World, researchers_read, bob_writes, d1, db, e1, storage, page, service_of, sample, mounted,
  carol, provisioning, attaching,
}
use research_service_workben.Datasets.Instance.{over_service, list_data_sets-HasAccess}

permissions_response-identity_permissions_example :
    (data_set_permission_to_identity_permissions "d1" (researchers_read ∷ bob_writes ∷ [])
      >>? identity_permissions_to_permissions_response)
    ≡ ok (
        record {
          data_set_id = "d1";
          permissions = researchers_read ∷ bob_writes ∷ [];
          page_token = none;
        }
        ∷ [])
permissions_response-identity_permissions_example =
    permissions_response-identity_permissions "d1" researchers_read (bob_writes ∷ [])
      (record { level = refl; type_known = refl }, (record { level = refl; type_known = refl }, tt))
      ((refl, tt), (tt, tt))

abbrev service : Plugins Statuses
service =
    plugins table directory view table-IsTable directory-KeepsView permissions casl (λ m. pure tt)
      (λ s. s) (λ q k w. refl) (λ ps k w. refl) (λ m k w. refl)

alice_reads_d1 :
    (is_authorized_on_data_set service 3 "d1" "read-only" alice researchers_active).0 ≡ ok tt
unfolding is_authorized_on_data_set is_authorized_on_subject check_subject check_identities
    get_subject_permissions get_all_identity_permissions_by_subject Service.with_audit audited
    validate_user_groups get_group_status is_authorized_on_dynamic_operations throw_unless_can
    define_abilities_for_identity_permissions identity_rule identity_conditions dynamic_request
    collect
alice_reads_d1 = refl

abbrev bob_may : IdentityPermission
bob_may = record may_read { identity_type = user; identity_id = "bob"; action = update }

responses :
    identity_permissions_to_permissions_response (may_read ∷ bob_may ∷ [])
    ≡ ok (
        record {
          data_set_id = "d1";
          permissions = researchers_read ∷ bob_writes ∷ [];
          page_token = none;
        }
        ∷ [])
unfolding identity_permissions_to_permissions_response add_all add_to_response merge
responses = refl

permissions_response-granted_example :
    level_on "d1" "bob" "USER" (
      record {
        data_set_id = "d1";
        permissions = researchers_read ∷ bob_writes ∷ [];
        page_token = none;
      }
      ∷ [])
    ≡ granted "d1" "bob" "USER" (may_read ∷ bob_may ∷ [])
permissions_response-granted_example =
    permissions_response-granted (may_read ∷ bob_may ∷ [])
      (record {
        data_set_id = "d1";
        permissions = researchers_read ∷ bob_writes ∷ [];
        page_token = none;
      }
        ∷ [])
      "d1" "bob" "USER" responses

service_of-IsServed : IsServed (service_of none page) "d1" (d1 none) page
service_of-IsServed = record {
  metadata = λ w. refl;
  permissions = λ t w. refl;
  audit = λ m w. refl;
}

get_data_set-outcome_example :
    get_data_set (service_of none page) 6 "d1" carol tt
    ≡ (outcome (d1 none) (page none) (page (some "2")), tt)
get_data_set-outcome_example =
    get_data_set-outcome (service_of none page) "d1" (d1 none) page service_of-IsServed tt 5 carol

removes_d1 :
    (remove_data_set sample 3 "d1" (λ id. pure tt) carol tt).0
    ≡ ok (record (d1 none) { permissions = some (researchers_read ∷ []) })
unfolding remove_data_set with_audit audited get_data_set read_more
removes_d1 = refl

remove_data_set-IsRemoved_example :
    IsRemoved sample 3 "d1"
      (λ id. pure tt)
      carol
      tt
      (record (d1 none) { permissions = some (researchers_read ∷ []) })
remove_data_set-IsRemoved_example =
    remove_data_set-IsRemoved sample 3 "d1" (λ id. pure tt) carol tt removes_d1

reads_mounted :
    (get_data_set mounted 3 "d1" carol tt).0
    ≡ ok (record (d1 (some ("e1" ∷ []))) { permissions = some (researchers_read ∷ []) })
unfolding get_data_set with_audit audited read_more
reads_mounted = refl

provisions_d1 :
    (provision_data_set sample provisioning tt).0
    ≡ ok (record (d1 none) { permissions = some (researchers_read ∷ []) })
unfolding provision_data_set with_audit audited update_new_data_set_permissions initial_permissions
provisions_d1 = refl

provision_data_set-IsProvisioned_example :
    IsProvisioned sample provisioning
      (record (d1 none) { permissions = some (researchers_read ∷ []) })
provision_data_set-IsProvisioned_example =
    provision_data_set-IsProvisioned sample provisioning tt provisions_d1

lists_d1 :
    (list_data_sets sample 3 carol 5 none tt).0
    ≡ ok (record { items = d1 none ∷ []; pagination_token = none })
unfolding list_data_sets with_audit audited read_visible visible cut_newest sort_newest
    insert_newest
lists_d1 = refl

list_data_sets-IsVisiblePage_example :
    IsVisiblePage sample carol 5 (record { items = d1 none ∷ []; pagination_token = none })
list_data_sets-IsVisiblePage_example =
    list_data_sets-IsVisiblePage sample carol 3 5 none tt lists_d1

mounts_d1 :
    (get_data_set_mount_object mounted 3 "d1" "e1" carol tt).0 ≡ ok (generate_mount_object e1)
unfolding get_data_set_mount_object with_audit audited get_data_set read_more get_external_end_point
    get_authenticated_user_dataset_permissions
mounts_d1 = refl

get_data_set_mount_object-IsGranted_example :
    (e : ExternalEndpoint) × (generate_mount_object e1 ≡ generate_mount_object e)
    × ((v : World) × ((mounted.db.get_data_set_end_point_details "d1" "e1" v).0 ≡ ok e))
    × Exists (IsGranted mounted e.access_level) (own_requests mounted carol "d1")
get_data_set_mount_object-IsGranted_example =
    get_data_set_mount_object-IsGranted mounted 3 "d1" "e1" carol tt mounts_d1

attaches_e1 :
    (add_data_set_external_endpoint_for_group sample 3 attaching tt).0
    ≡ ok (generate_mount_object e1)
unfolding add_data_set_external_endpoint_for_group add_data_set_external_endpoint with_audit audited
    get_data_set read_more get_minimum_access_level
attaches_e1 = refl

add_data_set_external_endpoint_for_group-IsAttached_example :
    (there : DataSet) × ((get_data_set sample 3 "d1" carol tt).0 ≡ ok there)
    × IsAttached sample
        (record attaching { identity_type = "GROUP" })
        there
        (generate_mount_object e1)
add_data_set_external_endpoint_for_group-IsAttached_example =
    add_data_set_external_endpoint_for_group-IsAttached sample 3 attaching tt attaches_e1

detaches_e1 : (remove_data_set_external_endpoint mounted 3 "d1" "e1" storage carol tt).0 ≡ ok tt
unfolding remove_data_set_external_endpoint with_audit audited get_data_set read_more
    get_external_end_point
detaches_e1 = refl

abbrev listing_db : DataSetService Statuses
listing_db = record {
  db = db none;
  authz = wbc_data_sets_authorization_plugin service 3;
  write = λ m. pure tt;
  s3_datasets_bucket_name = some "bucket";
  main_acct_id = some "123";
  date_parse = λ s. 0;
}

alice_lists_d1 :
    (list_data_sets (over_service service 3 listing_db alice) 3 alice 5 none researchers_active).0
    ≡ ok (record { items = d1 none ∷ []; pagination_token = none })
unfolding list_data_sets with_audit read_visible visible cut_newest sort_newest insert_newest
    is_authorized_on_data_set is_authorized_on_subject check_subject check_identities
    get_subject_permissions get_all_identity_permissions_by_subject Service.with_audit audited
    validate_user_groups get_group_status is_authorized_on_dynamic_operations throw_unless_can
    define_abilities_for_identity_permissions identity_rule identity_conditions dynamic_request
    collect
alice_lists_d1 = refl

list_data_sets-HasAccess_example :
    All (λ d. HasAccess service 3 alice (on_data_set d.id read)) (d1 none ∷ [])
list_data_sets-HasAccess_example =
    list_data_sets-HasAccess service 3 listing_db alice 3 5 none researchers_active alice_lists_d1
