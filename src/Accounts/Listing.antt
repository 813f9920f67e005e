-- ===== src/Accounts/Listing.antt =====
-- workbench-core/accounts/src/utilities/projectUtils.ts, and the page that
-- workbench-core/accounts/src/services/projectService.ts cuts out of a list of projects. The order
-- of `localeCompare` is a parameter, and so is the encoding of a token (base64 of JSON).
pub mod Sorting
pub mod Filtering
pub mod Values
pub mod Paging
pub mod Members
use Prim.Native.Nat.{◌/◌, ◌%◌}
use Prim.Native.Char.{code}
use Prim.Native.String.{[], ◌∷◌}
use package.text.Mathlib.Text.{starts_with}
use research_service_workben.Base.{
  units, ℕ, suc, ◌+◌, ◌-◌, ◌<>◌, String, Bool, true, false, not, ◌&&◌, ◌||◌, Option, none, some,
  List, [], ◌∷◌, if◌then◌else◌, Result, ok, err, hang, Error, ◌>>?◌, ltb, ◌==◌, Dict, lookup,
  length, take, drop, find, split, part, truthy, Page,
}
use research_service_workben.Accounts.Models.{
  Project, properties, FilterValue, text, range, QueryStringParamFilter, FilterRequest, SortRequest,
}

-- `a < b` of texts: their UTF-16 code units are compared one after another.
abbrev pub units_less : List ℕ → List ℕ → Bool
units_less [] [] = false
units_less [] (y ∷ ys) = true
units_less (x ∷ xs) [] = false
units_less (x ∷ xs) (y ∷ ys) = ltb x y || (not (ltb y x) && units_less xs ys)

unfoldable pub less : String → String → Bool
less a b = units_less (units a) (units b)

-- An object that is compared to a text counts as this text.
abbrev as_text : FilterValue → String
as_text (text s) = s
as_text (range a b) = "[object Object]"

abbrev is_same : String → FilterValue → Bool
is_same s (text v) = s == v
is_same s (range a b) = false

abbrev between : String → FilterValue → Result Bool
between s (text v) = err Error.bad_request
between s (range a b) =
    if a == "" || b == "" then err Error.bad_request else ok (not (less s a) && not (less b s))

-- `selectedValue.startsWith(selectedValue)`
abbrev begins : String → FilterValue → Result Bool
begins s (text v) = ok (starts_with v v)
begins s (range a b) = err Error.bad_request

abbrev pub compare_value : String → FilterValue → String → Result Bool
compare_value qualifier v s =
    if qualifier == "eq"
    then ok (is_same s v)
    else if qualifier == "lt"
    then ok (less s (as_text v))
    else if qualifier == "lte"
    then ok (not (less (as_text v) s))
    else if qualifier == "gt"
    then ok (less (as_text v) s)
    else if qualifier == "gte"
    then ok (not (less s (as_text v)))
    else if qualifier == "between"
    then between s v
    else if qualifier == "begins"
    then begins s v
    else err Error.bad_request

-- A property that the project lacks is refused.
abbrev of_property : {A : Type 0} → (String → Result A) → Option String → Result A
of_property f none = err Error.bad_request
of_property f (some s) = f s

unfoldable pub compare_project : String → String → FilterValue → Project → Result Bool
compare_project selected qualifier v project =
    of_property (compare_value qualifier v) (lookup selected (properties project))

-- `projects.filter(…)`, with a test that may throw
unfoldable pub filter_result : {A : Type 0} → (A → Result Bool) → List A → Result (List A)
filter_result p [] = ok []
filter_result p (x ∷ xs) =
    p x >>? λ kept. filter_result p xs >>? λ rest. ok (if kept then x ∷ rest else rest)

abbrev pub selected_property : String → String
selected_property key = if key == "dependency" then "costCenterId" else key

-- The one operator of a filter; an absent value, or none, has an invalid format.
abbrev filter_by : String → Option QueryStringParamFilter → List Project → Result (List Project)
filter_by key none projects = err Error.bad_request
filter_by key (some []) projects = err Error.bad_request
filter_by key (some ((qualifier, none) ∷ more)) projects = err Error.bad_request
filter_by key (some ((qualifier, some v) ∷ more)) projects =
    filter_result (compare_project (selected_property key) qualifier v) projects

unfoldable pub manual_filter_projects : FilterRequest → List Project → Result (List Project)
manual_filter_projects [] projects = ok projects
manual_filter_projects ((key, v) ∷ []) projects = filter_by key v projects
manual_filter_projects (f ∷ g ∷ more) projects = err Error.bad_request

-- What `localeCompare` says of two texts.
pub data Order : Type 0 where
  before same after : Order

module _ (locale_compare : String → String → Order) where
  -- `order(…) > 0`, by which the sort moves the second project to the front
  abbrev pub direction : String → String → String → Result Order
  direction way a b =
      if way == "asc"
      then ok (locale_compare a b)
      else if way == "desc"
      then ok (locale_compare b a)
      else err Error.bad_request

  unfoldable pub order : String → String → Project → Project → Result Order
  order key way p q =
      of_property (λ a. of_property (λ b. direction way a b) (lookup key (properties q)))
        (lookup key (properties p))

  abbrev pub place :
      Order → Project → Project → List Project → Result (List Project) → Result (List Project)
  place after p q qs rest = rest >>? λ r. ok (q ∷ r)
  place _ p q qs rest = ok (p ∷ q ∷ qs)

  -- The stable sort of `projects.sort(…)`: a project goes before the first that is not before it.
  unfoldable pub insert :
      (Project → Project → Result Order) → Project → List Project → Result (List Project)
  insert cmp p [] = ok (p ∷ [])
  insert cmp p (q ∷ qs) = let rest = insert cmp p qs in cmp p q >>? λ o. place o p q qs rest

  unfoldable pub sort : (Project → Project → Result Order) → List Project → Result (List Project)
  sort cmp [] = ok []
  sort cmp (p ∷ ps) = sort cmp ps >>? λ rest. insert cmp p rest

  unfoldable pub manual_sort_projects : SortRequest → List Project → Result (List Project)
  manual_sort_projects [] projects = ok projects
  manual_sort_projects ((key, none) ∷ []) projects = err Error.bad_request
  manual_sort_projects ((key, some way) ∷ []) projects =
      sort (order (selected_property key) way) projects
  manual_sort_projects (f ∷ g ∷ more) projects = err Error.bad_request

-- `toPaginationToken`, and the `pk` that `fromPaginationToken` reads off a token, or throws.
pub record Tokens : Type 0 where
  pub to_token : String → String
  pub from_token : String → Result String

unfoldable pub project_key : String → String
project_key id = "PROJ#" <> id

-- The projects behind the one with the id; `none` where there is no such project.
unfoldable pub after_project : Option String → List Project → Option (List Project)
after_project none projects = none
after_project (some id) [] = none
after_project (some id) (p ∷ ps) = if p.id == id then some ps else after_project (some id) ps

module _ (t : Tokens) where
  abbrev pub started : Option (List Project) → Result (List Project)
  started none = err Error.invalid_pagination_token
  started (some ps) = ok ps

  abbrev pub start_from : Option String → List Project → Result (List Project)
  start_from none projects = ok projects
  start_from (some token) projects =
      t.from_token token >>? λ pk. started (after_project (part 1 (split b'#' pk)) projects)

  -- The projects behind the one that the token names.
  unfoldable pub start_page : Option String → List Project → Result (List Project)
  start_page token projects = start_from (truthy token) projects

  -- A full page ends with the token of its last project.
  abbrev pub ended : List Project → Option Project → Result (Page Project)
  ended page none = err (Error.other "TypeError")
  ended page (some p) =
      ok (record { items = page; pagination_token = some (t.to_token (project_key p.id)) })

  unfoldable pub cut_page : ℕ → List Project → Result (Page Project)
  cut_page page_size projects =
      if ltb (length projects) page_size
      then ok (record { items = projects; pagination_token = none })
      else ended (take page_size projects) (part (page_size - 1) (take page_size projects))

  unfoldable pub build_page_and_pagination_token_after_get_items :
      Option String → List Project → ℕ → Result (Page Project)
  build_page_and_pagination_token_after_get_items token projects page_size =
      start_page token projects >>? cut_page page_size
