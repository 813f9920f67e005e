-- ===== src/Accounts/Listing/Filtering.antt =====
-- Which projects a filter keeps.
use mathlib.Core.Path.{subst}
use package.text.Mathlib.Text.{starts_with}
use package.text.Mathlib.TextEquality.{starts_with_iff}
use package.text.Mathlib.TextLemmas.{append-nil}
use research_service_workben.Base.{
  String, Bool, true, false, not, some, List, [], ◌∷◌, ◌≡◌, ◌⊎◌, ◌↔◌, refl, sym, ◌∙◌, inl, inr, ok,
  arith, lookup, ◌==◌, eq_iff, includes,
}
use research_service_workben.Accounts.Models.{Project, properties, text}
use research_service_workben.Accounts.Listing.{
  less, selected_property, compare_value, compare_project, filter_result, manual_filter_projects,
}
use research_service_workben.Accounts.Listing.Values.{
  IsProperty, HasValue, some_injective, value_of, lookup-HasValue, HasValue-lookup,
}

-- What an operator with a text asks of a value; `begins` asks nothing of it.
abbrev pub Holds : (qualifier v value : String) → Type 0
Holds qualifier v s =
    (((qualifier == "eq") ≡ true) × (s ≡ v))
    ⊎ (((qualifier == "lt") ≡ true) × (less s v ≡ true))
    ⊎ (((qualifier == "lte") ≡ true) × (less v s ≡ false))
    ⊎ (((qualifier == "gt") ≡ true) × (less v s ≡ true))
    ⊎ (((qualifier == "gte") ≡ true) × (less s v ≡ false))
    ⊎ ((qualifier == "begins") ≡ true)

-- `ys` are the elements of `xs` of which the predicate holds, in their order.
abbrev pub IsFiltered : {A : Type 0} → (A → Type 0) → List A → List A → Type 0
IsFiltered P [] ys = ys ≡ []
IsFiltered {A} P (x ∷ xs) ys =
    (P x × ((zs : List A) × (ys ≡ x ∷ zs) × IsFiltered P xs zs)) ⊎ ((¬ P x) × IsFiltered P xs ys)

abbrev pub operators : List String
operators = "eq" ∷ "lt" ∷ "lte" ∷ "gt" ∷ "gte" ∷ "begins" ∷ []

starts_itself : (v : String) → starts_with v v ≡ true
starts_itself v = (starts_with_iff v v).1 ("", append-nil v)

-- The test is decided, as the description says.
abbrev IsTested : (v s q : String) → Type 0
IsTested v s q = (b : Bool) × (compare_value q (text v) s ≡ ok b) × ((b ≡ true) ↔ Holds q v s)

abbrev IsOneOf : String → Type 0
IsOneOf q = (q ≡ "eq") ⊎ (q ≡ "lt") ⊎ (q ≡ "lte") ⊎ (q ≡ "gt") ⊎ (q ≡ "gte") ⊎ (q ≡ "begins")

is_one_of : (q : String) → includes q operators ≡ true → IsOneOf q
is_one_of q h = ground (
  arith,
  eq_iff "eq" q,
  eq_iff "lt" q,
  eq_iff "lte" q,
  eq_iff "gt" q,
  eq_iff "gte" q,
  eq_iff "begins" q,
)

compare_value-Holds : (v s q : String) → IsOneOf q → IsTested v s q
compare_value-Holds v s q (inl e) =
    subst (IsTested v s) (sym e) (s == v, refl, ground (arith, eq_iff s v))
compare_value-Holds v s q (inr (inl e)) =
    subst (IsTested v s) (sym e) (less s v, refl, ground arith)
compare_value-Holds v s q (inr (inr (inl e))) =
    subst (IsTested v s) (sym e) (not (less v s), refl, ground arith)
compare_value-Holds v s q (inr (inr (inr (inl e)))) =
    subst (IsTested v s) (sym e) (less v s, refl, ground arith)
compare_value-Holds v s q (inr (inr (inr (inr (inl e))))) =
    subst (IsTested v s) (sym e) (not (less s v), refl, ground arith)
compare_value-Holds v s q (inr (inr (inr (inr (inr e))))) =
    subst (IsTested v s) (sym e) (starts_with v v, refl, ground (arith, starts_itself v))

-- The value of the project under the key passes the operator.
abbrev pub Passes : (key qualifier v : String) → Project → Type 0
Passes key qualifier v p = (a : String) × HasValue key p a × Holds qualifier v a

module _ (key qualifier v : String) (known : includes qualifier operators ≡ true)
    (has : IsProperty (selected_property key)) where
  test_project :
      (p : Project)
      → (b : Bool) × (compare_project (selected_property key) qualifier (text v) p ≡ ok b)
        × ((b ≡ true) ↔ Passes key qualifier v p)
  unfolding compare_project
  test_project p =
      let (a, e) = value_of (lookup (selected_property key) (properties p)) (has p) in
      let (b, compared, holds) = compare_value-Holds v a qualifier (is_one_of qualifier known) in
      (
        b,
        rw e compared,
        (
          (λ t. (a, lookup-HasValue key p a e, holds.0 t)),
          (λ k. holds.1 (
              subst (Holds qualifier v) (some_injective (sym (HasValue-lookup key p k.0 k.1) ∙ e))
                k.2)),
        ),
      )

  filter_all :
      (ps : List Project)
      → (kept : List Project) × (filter_result
            (compare_project (selected_property key) qualifier (text v))
            ps
          ≡ ok kept)
        × IsFiltered (Passes key qualifier v) ps kept
  unfolding filter_result
  filter_all [] = ([], refl, refl)
  filter_all (p ∷ ps) = go (test_project p) (filter_all ps)
    where
      go :
          (b : Bool) × (compare_project (selected_property key) qualifier (text v) p ≡ ok b)
            × ((b ≡ true) ↔ Passes key qualifier v p)
          → (kept : List Project) × (filter_result
                (compare_project (selected_property key) qualifier (text v))
                ps
              ≡ ok kept)
            × IsFiltered (Passes key qualifier v) ps kept
          → (kept : List Project) × (filter_result
                (compare_project (selected_property key) qualifier (text v))
                (p ∷ ps)
              ≡ ok kept)
            × IsFiltered (Passes key qualifier v) (p ∷ ps) kept
      go (true, e, passes) (kept, made, h) =
          (p ∷ kept, rw (e, made) refl, inl (passes.0 refl, (kept, refl, h)))
      go (false, e, passes) (kept, made, h) =
          (kept, rw (e, made) refl, inr ((λ k. absurd (ground (arith, passes.1 k))), h))

  -- Filtering by one of these operators with a text, and by a property that every project has, returns the
  -- projects that the operator holds of, in their order: equal, below, at most, above, at least, by the
  -- order of the texts' code units. The operator `begins` holds of every project, whatever the text.
  pub manual_filter_projects-IsFiltered :
      (projects : List Project)
      → (kept : List Project) × (manual_filter_projects
            ((key, some ((qualifier, some (text v)) ∷ [])) ∷ [])
            projects
          ≡ ok kept)
        × IsFiltered (Passes key qualifier v) projects kept
  unfolding manual_filter_projects
  manual_filter_projects-IsFiltered projects = filter_all projects
