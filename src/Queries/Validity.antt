-- ===== src/Queries/Validity.antt =====
-- The index that a filter and an order ask for.
use research_service_workben.Base.{
  String, Option, none, some, List, [], ◌∷◌, ◌≡◌, refl, ap, ◌∙◌, sym, inl, inr, ok, arith,
  Bool-cases, ok_injective, ◌==◌, eq_iff, then-ok,
}
use research_service_workben.Accounts.Models.{FilterValue, FilterRequest, SortRequest}
use research_service_workben.Queries.{
  QueryChange, validate_single_sort_and_filter, condition_of, gsi, index_name, filter_on, sort_on,
  get_filter_query_params, get_sort_query_params,
}

injective : {A : Type 0} {a b : A} → some a ≡ some b → a ≡ b
injective h = cc

module _ (to_lower_case : String → String) (suffixes : List String) where
  -- The index for a property.
  abbrev IsFor : String → QueryChange → Type 0
  IsFor key c =
      (s : String) × (gsi to_lower_case suffixes key ≡ some s)
      × (c.index ≡ index_name s)
      × (c.sort_key ≡ key)

  filter_on-IsFor :
      (key : String) (o : Option String) (cs : List (String × FilterValue)) (c : QueryChange)
      → gsi to_lower_case suffixes key ≡ o
      → filter_on to_lower_case key o cs ≡ ok (some c)
      → IsFor key c
  filter_on-IsFor key none cs c e h = cc
  filter_on-IsFor key (some s) [] c e h = cc
  filter_on-IsFor key (some s) (v ∷ vs) c e h =
      let same = injective (ok_injective h) in
      (s, e, sym (ap (λ c. c.index) same), sym (ap (λ c. c.sort_key) same))

  sort_on-IsFor :
      (key : String) (value : Option String) (o : Option String) (c : QueryChange)
      → gsi to_lower_case suffixes key ≡ o
      → sort_on to_lower_case key value o ≡ ok (some c)
      → IsFor key c
  sort_on-IsFor key value none c e h = cc
  sort_on-IsFor key value (some s) c e h =
      let same = injective (ok_injective h) in
      (s, e, sym (ap (λ c. c.index) same), sym (ap (λ c. c.sort_key) same))

  same_index :
      (key key' : String) (c d : QueryChange)
      → key ≡ key'
      → IsFor key c
      → IsFor key' d
      → (c.index ≡ d.index) × (c.sort_key ≡ d.sort_key)
  same_index key key' c d same (s, e, i, k) (s', e', i', k') =
      let suffix = injective (sym e ∙ (ap (gsi to_lower_case suffixes) same ∙ e')) in
      (i ∙ (ap index_name suffix ∙ sym i'), k ∙ (same ∙ sym k'))

  -- Where a request's filter and order pass the validation together, and each is turned into parameters of
  -- the query, both choose the same index and the same sort key: neither overrides the other's.
  pub validate_single_sort_and_filter-same_index :
      (filter : Option FilterRequest) (sort : Option SortRequest) (c d : QueryChange)
      → validate_single_sort_and_filter filter sort ≡ ok tt
      → get_filter_query_params to_lower_case filter suffixes ≡ ok (some c)
      → get_sort_query_params to_lower_case sort suffixes ≡ ok (some d)
      → (c.index ≡ d.index) × (c.sort_key ≡ d.sort_key)
  unfolding validate_single_sort_and_filter get_filter_query_params get_sort_query_params
  validate_single_sort_and_filter-same_index none sort c d v f g = cc
  validate_single_sort_and_filter-same_index (some []) sort c d v f g = cc
  validate_single_sort_and_filter-same_index (some (x ∷ y ∷ xs)) sort c d v f g = cc
  validate_single_sort_and_filter-same_index (some ((k, value) ∷ [])) none c d v f g = cc
  validate_single_sort_and_filter-same_index (some ((k, value) ∷ [])) (some []) c d v f g = cc
  validate_single_sort_and_filter-same_index (some ((k, value) ∷ [])) (some (x ∷ y ∷ xs)) c d v f
        g =
      cc
  validate_single_sort_and_filter-same_index (some ((k, value) ∷ [])) (some ((j, way) ∷ [])) c d v f
        g =
      let (cs, made, on) =
        then-ok (condition_of value) (filter_on to_lower_case k (gsi to_lower_case suffixes k)) f in
      let same : k ≡ j = elim (Bool-cases (k == j)) [
        | inl e ↦ (eq_iff k j).0 e
        | inr e ↦ absurd (ground (arith, v))
      ] in
      same_index k j c d same (filter_on-IsFor k (gsi to_lower_case suffixes k) cs c refl on)
        (sort_on-IsFor j way (gsi to_lower_case suffixes j) d refl g)
