-- ===== src/Queries.antt =====
-- workbench-core/base/src/utilities/queryParamsFiltersUtils.ts and paginationHelper.ts: the filter, the
-- order and the page of a request as parameters of a query. The lower case of a text and the decoding
-- of a token are parameters.
pub mod Validity
use research_service_workben.Base.{
  ℕ, String, Bool, true, false, not, ◌&&◌, ◌||◌, Option, none, some, List, [], ◌∷◌, if◌then◌else◌,
  Result, ok, err, Error, ◌>>?◌, Dict, lookup, ltb, length, ◌==◌, ◌<>◌, find, truthy,
}
use research_service_workben.Accounts.Models.{
  FilterValue, text, range, QueryStringParamFilter, FilterRequest, SortRequest,
}

-- What is set of the parameters of a query for the items of a resource type. A start is the key that a
-- page token holds, `none` where the query starts at the beginning.
pub record QueryParams : Type 0 where
  pub resource_type : String
  pub index : String
  pub sort_key : Option String
  pub condition : List (String × FilterValue)
  pub forward : Option Bool
  pub limit : ℕ
  pub start : Option String

abbrev pub entries {ℓ} : {A : Type ℓ} → Option (List A) → List A
entries none = []
entries (some xs) = xs

abbrev pub is_given {ℓ} : {A : Type ℓ} → Option A → Bool
is_given none = false
is_given (some x) = true

-- Both have one property, and it is the same.
abbrev pub same_property : FilterRequest → SortRequest → Bool
same_property ((k, v) ∷ []) ((j, w) ∷ []) = k == j
same_property _ _ = false

unfoldable pub validate_single_sort_and_filter :
    Option FilterRequest → Option SortRequest → Result (Unit {0})
validate_single_sort_and_filter filter sort =
    if ltb 1 (length (entries filter))
    then err Error.bad_request
    else if ltb 1 (length (entries sort))
    then err Error.bad_request
    else if is_given filter && is_given sort && not (same_property (entries filter) (entries sort))
    then err Error.bad_request
    else ok tt

-- `marshall(value)`: an operator without a value is refused.
abbrev pub marshalled : QueryStringParamFilter → Result (List (String × FilterValue))
marshalled [] = ok []
marshalled ((k, none) ∷ m) = err (Error.other "Error")
marshalled ((k, some v) ∷ m) = marshalled m >>? λ rest. ok ((k, v) ∷ rest)

-- With `between` there, only it is kept.
abbrev pub between_or_all :
    QueryStringParamFilter → Option (Option FilterValue) → Result (List (String × FilterValue))
between_or_all value (some (some v)) = ok (("between", v) ∷ [])
between_or_all value _ = marshalled value

abbrev pub condition_of : Option QueryStringParamFilter → Result (List (String × FilterValue))
condition_of none = err (Error.other "Error")
condition_of (some value) = between_or_all value (lookup "between" value)

-- An index is named by what follows `getResourceBy` in its name.
abbrev pub index_name : String → String
index_name suffix = "getResourceBy" <> suffix

-- What a filter or an order sets of the parameters.
pub record QueryChange : Type 0 where
  pub index : String
  pub sort_key : String
  pub condition : Option (List (String × FilterValue))
  pub forward : Option Bool

module _ (to_lower_case : String → String) where
  -- The first index for the property.
  abbrev pub gsi : List String → String → Option String
  gsi suffixes key = find (λ s. to_lower_case s == to_lower_case key) suffixes

  abbrev pub filter_on :
      String → Option String → List (String × FilterValue) → Result (Option QueryChange)
  filter_on key (some s) (c ∷ cs) = ok (
      some (record {
        index = index_name s;
        sort_key = key;
        condition = some (c ∷ cs);
        forward = none;
      }))
  filter_on key _ _ = err Error.bad_request

  unfoldable pub get_filter_query_params :
      Option FilterRequest → List String → Result (Option QueryChange)
  get_filter_query_params none suffixes = ok none
  get_filter_query_params (some []) suffixes = ok none
  get_filter_query_params (some ((key, value) ∷ [])) suffixes =
      condition_of value >>? filter_on key (gsi suffixes key)
  get_filter_query_params (some (f ∷ g ∷ more)) suffixes = err Error.bad_request

  abbrev is_ascending : Option String → Bool
  is_ascending none = false
  is_ascending (some v) = v == "asc"

  abbrev pub sort_on : String → Option String → Option String → Result (Option QueryChange)
  sort_on key value none = err Error.bad_request
  sort_on key value (some s) = ok (
      some (record {
        index = index_name s;
        sort_key = key;
        condition = none;
        forward = some (is_ascending value);
      }))

  unfoldable pub get_sort_query_params :
      Option SortRequest → List String → Result (Option QueryChange)
  get_sort_query_params none suffixes = ok none
  get_sort_query_params (some []) suffixes = ok none
  get_sort_query_params (some ((key, value) ∷ [])) suffixes = sort_on key value (gsi suffixes key)
  get_sort_query_params (some (f ∷ g ∷ more)) suffixes = err Error.bad_request

abbrev or_kept {ℓ} : {A : Type ℓ} → Option A → A → A
or_kept none a = a
or_kept (some b) a = b

abbrev or_same : Option Bool → Option Bool → Option Bool
or_same none a = a
or_same (some b) a = some b

-- `{ ...queryParams, ...change }`
unfoldable pub changed : QueryParams → Option QueryChange → QueryParams
changed q none = q
changed q (some c) = record q {
  index = c.index;
  sort_key = some c.sort_key;
  condition = or_kept c.condition q.condition;
  forward = or_same c.forward q.forward;
}

unfoldable pub add_pagination_token :
    (String → Result String) → Option String → QueryParams → Result QueryParams
add_pagination_token from_token token q = elim (truthy token) [
  | none ↦ ok q
  | some t ↦ from_token t >>? λ start. ok (record q { start = some start })
]
