-- ===== src/Accounts/ProjectLists/Own.antt =====
-- Whose projects listProjects returns.
use research_service_workben.Base.{
  String, false, Option, none, some, List, [], ◌∷◌, map, ◌≡◌, ap, sym, ◌∙◌, inl, inr, ok, All,
  Exists, includes, bind-ok, then-ok, ok_injective, lift, pure, ◌>>?◌, map_result, Page,
}
use mathlib.Core.Path.{subst}
use research_service_workben.Accounts.Models.{Project, FilterRequest, SortRequest}
use research_service_workben.Accounts.Listing.{
  project_key, manual_filter_projects, manual_sort_projects,
  build_page_and_pagination_token_after_get_items,
}
use research_service_workben.Accounts.Listing.Members.{
  map_result-All, manual_filter_projects-All, manual_sort_projects-All, build_page-All,
}
use research_service_workben.Accounts.Projects.{
  Item, ProjectStore, map_ddb_item_to_project, found_project, get_project,
}
use research_service_workben.Queries.{validate_single_sort_and_filter}
use research_service_workben.Accounts.ProjectLists.{
  ListStore, ListProjectsRequest, project_of_group, arranged, page_of, page_size_of, list_of_groups,
  list_for, list_projects,
}

module _ {W : Type 0} (s : ProjectStore W) where
  -- A project that is read from the item has the key.
  abbrev pub IsUnder : Item → String → Type 0
  IsUnder item k = (p : Project) → map_ddb_item_to_project s item ≡ ok p → project_key p.id ≡ k

  -- The table returns items for the keys that it is asked for, and each project is stored under the key
  -- of its own id.
  pub record IsKeyed : Type 0 where
    pub get_item :
        (k : String) (w : W) (item : Item) → (s.get_item k w).0 ≡ ok (some item) → IsUnder item k
    pub get_items :
        (ks : List String) (w : W) (items : List Item)
        → (s.get_items ks w).0 ≡ ok items
        → All (λ i. Exists (IsUnder i) ks) items

-- The project's key is that of the project of one of the groups.
abbrev pub IsOwn : List String → Project → Type 0
IsOwn groups p = Exists (λ g. project_key p.id ≡ project_key (project_of_group g)) groups

module _ {W : Type 0} (s : ListStore W) (keyed : IsKeyed s.projects) where
  found_project-IsUnder :
      (k : String) (w : W) (o : Option Item) (p : Project)
      → (s.projects.get_item k w).0 ≡ ok o
      → found_project s.projects o ≡ ok p
      → project_key p.id ≡ k
  found_project-IsUnder k w none p e h = cc
  found_project-IsUnder k w (some item) p e h = keyed.get_item k w item e p h

  read-IsOwn :
      (groups : List String) (item : Item) (p : Project)
      → Exists (IsUnder s.projects item) (map (λ g. project_key (project_of_group g)) groups)
      → map_ddb_item_to_project s.projects item ≡ ok p
      → IsOwn groups p
  read-IsOwn [] item p h e = h
  read-IsOwn (g ∷ gs) item p (inl under) e = inl (under p e)
  read-IsOwn (g ∷ gs) item p (inr more) e = inr (read-IsOwn gs item p more e)

  arranged-All :
      (P : Project → Type 0) (f : Option FilterRequest) (o : Option SortRequest)
      (ps rs : List Project)
      → All P ps
      → arranged s f o ps ≡ ok rs
      → All P rs
  arranged-All P none none ps rs h e =
      manual_sort_projects-All P s.locale_compare (("createdAt", some "asc") ∷ []) ps rs h e
  arranged-All P (some f) none ps rs h e = manual_filter_projects-All P f ps rs h e
  arranged-All P none (some o) ps rs h e = manual_sort_projects-All P s.locale_compare o ps rs h e
  arranged-All P (some f) (some o) ps rs h e =
      let (dropped, filtered, e1) =
        then-ok (manual_filter_projects f ps)
          (λ dropped. manual_sort_projects s.locale_compare o ps) e in
      manual_sort_projects-All P s.locale_compare o ps rs h e1

  list_of_groups-IsOwn :
      (r : ListProjectsRequest) (groups : List String) (w : W) (page : Page Project)
      → (list_of_groups s r groups w).0 ≡ ok page
      → All (IsOwn groups) page.items
  unfolding list_of_groups
  list_of_groups-IsOwn r groups w page h =
      let ks = map (λ g. project_key (project_of_group g)) groups in
      let (items, read, e) =
        bind-ok (s.projects.get_items ks) (λ items. lift {W = W} (page_of s r items)) w h in
      let build = λ (on_page : List Project).
        build_page_and_pagination_token_after_get_items s.tokens r.pagination_token on_page
          (page_size_of r.page_size) in
      let (ps, mapped, e1) =
        then-ok (map_result (map_ddb_item_to_project s.projects) items)
          (λ ps. arranged s r.filter r.sort ps >>? build) e in
      let (rs, done, e2) = then-ok (arranged s r.filter r.sort ps) build e1 in
      let own =
        map_result-All (λ i. Exists (IsUnder s.projects i) ks) (IsOwn groups)
          (map_ddb_item_to_project s.projects) (λ i p under e. read-IsOwn groups i p under e) items
          ps (keyed.get_items ks w items read) mapped in
      build_page-All (IsOwn groups) s.tokens r.pagination_token rs (page_size_of r.page_size) page
        (arranged-All (IsOwn groups) r.filter r.sort ps rs own done) e2

  list_for-IsOwn :
      (r : ListProjectsRequest) (groups : List String) (w : W) (page : Page Project)
      → (list_for s r false groups w).0 ≡ ok page
      → All (IsOwn groups) page.items
  unfolding get_project
  list_for-IsOwn r [] w page h = subst (λ q. All (IsOwn []) q.items) (ok_injective h) tt
  list_for-IsOwn r (g ∷ []) w page h =
      let k = project_key (project_of_group g) in
      let one =
        λ (p : Project). pure {W = W} (record { items = p ∷ []; pagination_token = none }) in
      let (p, got, e) = bind-ok (get_project s.projects (project_of_group g)) one w h in
      let (o, read, e1) =
        bind-ok (s.projects.get_item k) (λ item. lift {W = W} (found_project s.projects item)) w
          got in
      subst (λ q. All (IsOwn (g ∷ [])) q.items) (ok_injective e)
        (inl (found_project-IsUnder k w o p read e1), tt)
  list_for-IsOwn r (g ∷ g' ∷ groups) w page h = list_of_groups-IsOwn r (g ∷ g' ∷ groups) w page h

  -- To a user who is no IT administrator listProjects returns only projects of the user's own groups,
  -- however the request filters, sorts and pages them; given that the table answers for the keys that it
  -- is asked for, and keeps each project under the key of its id.
  pub list_projects-IsOwn :
      (r : ListProjectsRequest) (groups : List String) (w : W) {page : Page Project}
      → includes "ITAdmin" groups ≡ false
      → (list_projects s r groups w).0 ≡ ok page
      → All (IsOwn groups) page.items
  unfolding list_projects
  list_projects-IsOwn r groups w {page} member h =
      let (u, valid, e) =
        bind-ok (lift {W = W} (validate_single_sort_and_filter r.filter r.sort))
          (λ _. list_for s r (includes "ITAdmin" groups) groups) w h in
      list_for-IsOwn r groups w page (sym (ap (λ b. (list_for s r b groups w).0) member) ∙ e)
