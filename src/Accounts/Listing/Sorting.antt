-- ===== src/Accounts/Listing/Sorting.antt =====
-- Sorting a list of projects by hand (manualSortProjects).
use mathlib.Core.List.{Perm}
use mathlib.Core.List.Perm
use research_service_workben.Base.{
  String, ◌⊎◌, eq_iff, true, false, ◌||◌, some, List, [], ◌∷◌, ◌≡◌, ◌≢◌, refl, sym, ◌∙◌, inl, inr,
  Result, ok, arith, Bool-cases, lookup, ◌==◌,
}
use research_service_workben.Accounts.Models.{Project, properties}
use research_service_workben.Accounts.Listing.Values.{
  IsProperty, HasValue, value_of, lookup-HasValue,
}
use research_service_workben.Accounts.Listing.{
  Order, before, same, after, order, direction, insert, sort, manual_sort_projects,
  selected_property,
}

module _ (locale_compare : String → String → Order) where
  -- Each project may stand before the next.
  abbrev pub IsSorted : (Project → Project → Result Order) → List Project → Type 0
  IsSorted cmp [] = Unit
  IsSorted cmp (p ∷ []) = Unit
  IsSorted cmp (p ∷ q ∷ ps) = (cmp p q ≢ ok after) × IsSorted cmp (q ∷ ps)

  module _ (cmp : Project → Project → Result Order)
      (total : (p q : Project) → (o : Order) × (cmp p q ≡ ok o))
      (flip : (p q : Project) → cmp p q ≡ ok after → cmp q p ≢ ok after) where
    tail : (q : Project) (qs : List Project) → IsSorted cmp (q ∷ qs) → IsSorted cmp qs
    tail q [] h = tt
    tail q (r ∷ qs) h = h.1

    -- Inserting keeps the order: what may stand before the list and the inserted project may stand
    -- before the result.
    abbrev Inserted : Project → List Project → Type 0
    Inserted p qs =
        (rs : List Project) × (insert locale_compare cmp p qs ≡ ok rs)
        × Perm (p ∷ qs) rs
        × IsSorted cmp rs
        × ((x : Project) → cmp x p ≢ ok after → IsSorted cmp (x ∷ qs) → IsSorted cmp (x ∷ rs))

    in_front :
        (p q : Project) (qs : List Project)
        → insert locale_compare cmp p (q ∷ qs) ≡ ok (p ∷ q ∷ qs)
        → cmp p q ≢ ok after
        → IsSorted cmp (q ∷ qs)
        → Inserted p (q ∷ qs)
    in_front p q qs made ne h = (p ∷ q ∷ qs, made, Perm.refl _, (ne, h), λ x k l. (k, (ne, h)))

    insert-Inserted : (p : Project) (qs : List Project) → IsSorted cmp qs → Inserted p qs
    unfolding insert
    insert-Inserted p [] h = (p ∷ [], refl, Perm.refl _, tt, λ x k l. (k, tt))
    insert-Inserted p (q ∷ qs) h = go (total p q) (insert-Inserted p qs (tail q qs h))
      where
        go : (o : Order) × (cmp p q ≡ ok o) → Inserted p qs → Inserted p (q ∷ qs)
        go (before, e) ih = in_front p q qs (rw e refl) (λ a. absurd (ground arith)) h
        go (same, e) ih = in_front p q qs (rw e refl) (λ a. absurd (ground arith)) h
        go (after, e) (rs, made, perm, sorted, headed) = (
          q ∷ rs,
          rw (e, made) refl,
          Perm.trans (Perm.swap q p qs) (Perm.cons q perm),
          headed q (flip p q e) h,
          λ x k l. (l.0, headed q (flip p q e) h),
        )

    sort-IsSorted :
        (ps : List Project)
        → (rs : List Project) × (sort locale_compare cmp ps ≡ ok rs) × Perm ps rs × IsSorted cmp rs
    unfolding sort
    sort-IsSorted [] = ([], refl, Perm.refl _, tt)
    sort-IsSorted (p ∷ ps) =
        let (qs, e, perm, sorted) = sort-IsSorted ps in
        let (rs, made, perm', sorted', headed) = insert-Inserted p qs sorted in
        (rs, rw (e, made) refl, Perm.trans (Perm.cons p perm) perm', sorted')

-- What is documented of `localeCompare`: it reads backwards as the opposite.
pub record IsCollation (locale_compare : String → String → Order) : Type 0 where
  pub flip : (a b : String) → locale_compare a b ≡ after → locale_compare b a ≡ before
  pub flip_before : (a b : String) → locale_compare a b ≡ before → locale_compare b a ≡ after

module _ (locale_compare : String → String → Order) where
  -- The values of two neighbours: upwards the first does not come after the second, downwards not before.
  abbrev InOrder : (key way : String) → Project → Project → Type 0
  InOrder key way p q =
      (a : String) × (b : String) × HasValue key p a
      × HasValue key q b
      × (((way ≡ "asc") × (locale_compare a b ≢ after))
          ⊎ ((way ≡ "desc") × (locale_compare a b ≢ before)))

  abbrev pub IsOrdered : (key way : String) → List Project → Type 0
  IsOrdered key way [] = Unit
  IsOrdered key way (p ∷ []) = Unit
  IsOrdered key way (p ∷ q ∷ ps) = InOrder key way p q × IsOrdered key way (q ∷ ps)

module _ (locale_compare : String → String → Order) (collation : IsCollation locale_compare) where
  abbrev IsWay : String → Type 0
  IsWay way = (way == "asc" || way == "desc") ≡ true

  direction-total :
      (way a b : String) → IsWay way → (o : Order) × (direction locale_compare way a b ≡ ok o)
  direction-total way a b h = elim (Bool-cases (way == "asc")) [
    | inl e ↦ (locale_compare a b, rw e refl)
    | inr e ↦ (locale_compare b a, rw (e, second way h e) refl)
  ]
    where
      second : (way : String) → IsWay way → (way == "asc") ≡ false → (way == "desc") ≡ true
      second way h e = ground arith

  direction_flip :
      (way a b : String)
      → direction locale_compare way a b ≡ ok after
      → direction locale_compare way b a ≢ ok after
  direction_flip way a b h k = ground (arith, collation.flip a b, collation.flip b a)

  order_value :
      (key way : String) (p q : Project)
      → IsProperty key
      → (a : String) × (b : String) × (order locale_compare key way p q
          ≡ direction locale_compare way a b)
        × (order locale_compare key way q p ≡ direction locale_compare way b a)
  unfolding order
  order_value key way p q known =
      let (a, e) = value_of (lookup key (properties p)) (known p) in
      let (b, f) = value_of (lookup key (properties q)) (known q) in
      (a, b, rw (e, f) refl, rw (e, f) refl)

  directed :
      (way a b : String)
      → IsWay way
      → direction locale_compare way a b ≢ ok after
      → ((way ≡ "asc") × (locale_compare a b ≢ after))
        ⊎ ((way ≡ "desc") × (locale_compare a b ≢ before))
  directed way a b valid ne = elim (Bool-cases (way == "asc")) [
    | inl up ↦ inl ((eq_iff way "asc").0 up, λ later. ne (rw (up, later) refl))
    | inr other ↦
        let down : (way == "desc") ≡ true = ground arith in
        inr (
          (eq_iff way "desc").0 down,
          λ earlier. ne (rw (other, down, collation.flip_before a b earlier) refl),
        )
  ]

  in_order :
      (key way : String) (p q : Project)
      → IsProperty (selected_property key)
      → (way == "asc" || way == "desc") ≡ true
      → order locale_compare (selected_property key) way p q ≢ ok after
      → InOrder locale_compare key way p q
  unfolding order
  in_order key way p q known valid ne =
      let (a, e) = value_of (lookup (selected_property key) (properties p)) (known p) in
      let (b, f) = value_of (lookup (selected_property key) (properties q)) (known q) in
      let same : order locale_compare (selected_property key) way p q
          ≡ direction locale_compare way a b =
        rw (e, f) refl in
      (
        a,
        b,
        lookup-HasValue key p a e,
        lookup-HasValue key q b f,
        directed way a b valid (λ later. ne (same ∙ later)),
      )

  all_in_order :
      (key way : String)
      → IsProperty (selected_property key)
      → (way == "asc" || way == "desc") ≡ true
      → (ps : List Project)
      → IsSorted locale_compare (order locale_compare (selected_property key) way) ps
      → IsOrdered locale_compare key way ps
  all_in_order key way known valid [] h = tt
  all_in_order key way known valid (p ∷ []) h = tt
  all_in_order key way known valid (p ∷ q ∷ ps) (ne, h) =
      (in_order key way p q known valid ne, all_in_order key way known valid (q ∷ ps) h)

  -- Sorting by a property that every project has, upwards or downwards, returns the same projects, each as
  -- often as before, with the values of the property in this order by `localeCompare`, where `dependency`
  -- stands for the cost center.
  pub manual_sort_projects-IsOrdered :
      (key way : String) (projects : List Project)
      → IsProperty (selected_property key)
      → (way == "asc" || way == "desc") ≡ true
      → (sorted : List Project) × (manual_sort_projects locale_compare
            ((key, some way) ∷ [])
            projects
          ≡ ok sorted)
        × Perm projects sorted
        × IsOrdered locale_compare key way sorted
  unfolding manual_sort_projects
  manual_sort_projects-IsOrdered key way projects known valid =
      let (sorted, made, perm, h) =
        sort-IsSorted locale_compare (order locale_compare (selected_property key) way)
          (λ p q.
            let (a, b, e, f) = order_value (selected_property key) way p q known in
            let (o, d) = direction-total way a b valid in (o, e ∙ d))
          (λ p q h k.
            let (a, b, e, f) = order_value (selected_property key) way p q known in
            direction_flip way a b (sym e ∙ h) (sym f ∙ k))
          projects in
      (sorted, made, perm, all_in_order key way known valid sorted h)
