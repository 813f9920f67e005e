-- ===== src/Datasets/Instance.antt =====
-- The data set service over the plugin of wbcDataSetsAuthorizationPlugin.ts and the dynamic
-- authorization service.
use research_service_workben.Base.{ℕ, String, Option, List, [], ◌∷◌, ◌≡◌, ok, All, Page}
use research_service_workben.Authorization.Models.{AuthenticatedUser, read}
use research_service_workben.Authorization.Service.{Plugins}
use research_service_workben.Authorization.Dynamic.Access.{HasAccess}
use research_service_workben.Datasets.Models.{DataSet}
use research_service_workben.Datasets.Permissions.{on_data_set}
use research_service_workben.Datasets.Permissions.Access.{is_authorized_on_data_set-HasAccess}
use research_service_workben.Datasets.Plugins.{DataSetService, wbc_data_sets_authorization_plugin}
use research_service_workben.Datasets.Service.{list_data_sets}
use research_service_workben.Datasets.Service.Listing.{IsVisible, list_data_sets-IsVisiblePage}

module _ {W : Type 0} (p : Plugins W) (depth : ℕ) (s : DataSetService W)
    (u : AuthenticatedUser) where
  abbrev pub over_service : DataSetService W
  over_service = record s { authz = wbc_data_sets_authorization_plugin p depth }

  IsVisible-HasAccess :
      (ds : List DataSet)
      → All (IsVisible over_service u) ds
      → All (λ d. HasAccess p depth u (on_data_set d.id read)) ds
  IsVisible-HasAccess [] h = tt
  IsVisible-HasAccess (d ∷ ds) ((w, e), h) = (
    (is_authorized_on_data_set-HasAccess p depth d.id u "read-only" w e).0,
    IsVisible-HasAccess ds h,
  )

  -- With the plugin over the dynamic authorization service, listDataSets shows a user only data sets that
  -- an ALLOW of the user or of the user's valid groups lets the user read, and no DENY takes away.
  pub list_data_sets-HasAccess :
      (fuel page_size : ℕ) (token : Option String) (w : W) {page : Page DataSet}
      → (list_data_sets over_service fuel u page_size token w).0 ≡ ok page
      → All (λ d. HasAccess p depth u (on_data_set d.id read)) page.items
  list_data_sets-HasAccess fuel page_size token w {page} h =
      IsVisible-HasAccess page.items
        (list_data_sets-IsVisiblePage over_service u fuel page_size token w h).all_visible
