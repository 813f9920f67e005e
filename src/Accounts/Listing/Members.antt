-- ===== src/Accounts/Listing/Members.antt =====
-- Where the projects of a filtered, sorted or cut list come from.
use research_service_workben.Base.{
  ℕ, ◌-◌, String, Bool, true, false, Option, none, some, List, [], ◌∷◌, ◌≡◌, refl, inl, inr, Result,
  ok, arith, Bool-cases, All, All-take, length, take, part, split, ltb, ok_injective, then-ok,
  ◌>>?◌, ◌==◌, if◌then◌else◌, Page, truthy, map_result,
}
use mathlib.Core.Path.{subst}
use research_service_workben.Accounts.Models.{
  Project, FilterRequest, SortRequest, QueryStringParamFilter,
}
use research_service_workben.Accounts.Listing.{
  Order, before, same, after, place, insert, sort, order, manual_sort_projects, filter_result,
  filter_by, compare_project, manual_filter_projects, Tokens, after_project, started, start_from,
  start_page, ended, cut_page, selected_property, build_page_and_pagination_token_after_get_items,
}

injective : {A : Type 0} {a b : A} → some a ≡ some b → a ≡ b
injective h = cc

pub map_result-All :
    {A B : Type 0} (P : A → Type 0) (Q : B → Type 0) (f : A → Result B)
    → ((a : A) (b : B) → P a → f a ≡ ok b → Q b)
    → (xs : List A) (ys : List B) → All P xs
    → map_result f xs ≡ ok ys
    → All Q ys
map_result-All P Q f step [] ys h e = subst (All Q) (ok_injective e) tt
map_result-All P Q f step (x ∷ xs) ys (p, h) e =
    let (y, made, e1) = then-ok (f x) (λ y. map_result f xs >>? λ ys. ok (y ∷ ys)) e in
    let (rest, others, e2) = then-ok (map_result f xs) (λ ys. ok (y ∷ ys)) e1 in
    subst (All Q) (ok_injective e2) (step x y p made, map_result-All P Q f step xs rest h others)

module _ (P : Project → Type 0) where
  chosen-All :
      (b : Bool) (p : Project) (ps : List Project)
      → P p
      → All P ps
      → All P (if b then p ∷ ps else ps)
  chosen-All true p ps h hs = (h, hs)
  chosen-All false p ps h hs = hs

  filter_result-All :
      (test : Project → Result Bool) (ps rs : List Project)
      → All P ps
      → filter_result test ps ≡ ok rs
      → All P rs
  unfolding filter_result
  filter_result-All test [] rs h e = subst (All P) (ok_injective e) tt
  filter_result-All test (p ∷ ps) rs (h, hs) e =
      let finish = λ (kept : Bool) (rest : List Project). ok (if kept then p ∷ rest else rest) in
      let (kept, tested, e1) = then-ok (test p) (λ kept. filter_result test ps >>? finish kept) e in
      let (rest, others, e2) = then-ok (filter_result test ps) (finish kept) e1 in
      subst (All P) (ok_injective e2)
        (chosen-All kept p rest h (filter_result-All test ps rest hs others))

  filter_by-All :
      (key : String) (v : Option QueryStringParamFilter) (ps rs : List Project)
      → All P ps
      → filter_by key v ps ≡ ok rs
      → All P rs
  filter_by-All key none ps rs h e = cc
  filter_by-All key (some []) ps rs h e = cc
  filter_by-All key (some ((q, none) ∷ more)) ps rs h e = cc
  filter_by-All key (some ((q, some v) ∷ more)) ps rs h e =
      filter_result-All (compare_project (selected_property key) q v) ps rs h e

  pub manual_filter_projects-All :
      (f : FilterRequest) (ps rs : List Project)
      → All P ps
      → manual_filter_projects f ps ≡ ok rs
      → All P rs
  unfolding manual_filter_projects
  manual_filter_projects-All [] ps rs h e = subst (All P) (ok_injective e) h
  manual_filter_projects-All ((key, v) ∷ []) ps rs h e = filter_by-All key v ps rs h e
  manual_filter_projects-All (f ∷ g ∷ more) ps rs h e = cc

  module _ (locale_compare : String → String → Order) where
    place-All :
        (o : Order) (p q : Project) (qs rs : List Project) (rest : Result (List Project))
        → P p
        → P q
        → All P qs
        → ((r : List Project) → rest ≡ ok r → All P r)
        → place locale_compare o p q qs rest ≡ ok rs
        → All P rs
    place-All before p q qs rs rest hp hq h k e = subst (All P) (ok_injective e) (hp, (hq, h))
    place-All same p q qs rs rest hp hq h k e = subst (All P) (ok_injective e) (hp, (hq, h))
    place-All after p q qs rs rest hp hq h k e =
        let (r, made, e1) = then-ok rest (λ r. ok (q ∷ r)) e in
        subst (All P) (ok_injective e1) (hq, k r made)

    insert-All :
        (cmp : Project → Project → Result Order) (p : Project) (qs rs : List Project)
        → P p
        → All P qs
        → insert locale_compare cmp p qs ≡ ok rs
        → All P rs
    unfolding insert
    insert-All cmp p [] rs hp h e = subst (All P) (ok_injective e) (hp, tt)
    insert-All cmp p (q ∷ qs) rs hp (hq, h) e =
        let rest = insert locale_compare cmp p qs in
        let (o, compared, e1) = then-ok (cmp p q) (λ o. place locale_compare o p q qs rest) e in
        place-All o p q qs rs rest hp hq h (λ r k. insert-All cmp p qs r hp h k) e1

    sort-All :
        (cmp : Project → Project → Result Order) (ps rs : List Project)
        → All P ps
        → sort locale_compare cmp ps ≡ ok rs
        → All P rs
    unfolding sort
    sort-All cmp [] rs h e = subst (All P) (ok_injective e) tt
    sort-All cmp (p ∷ ps) rs (hp, h) e =
        let (r, sorted, e1) =
          then-ok (sort locale_compare cmp ps) (insert locale_compare cmp p) e in
        insert-All cmp p r rs hp (sort-All cmp ps r h sorted) e1

    pub manual_sort_projects-All :
        (o : SortRequest) (ps rs : List Project)
        → All P ps
        → manual_sort_projects locale_compare o ps ≡ ok rs
        → All P rs
    unfolding manual_sort_projects
    manual_sort_projects-All [] ps rs h e = subst (All P) (ok_injective e) h
    manual_sort_projects-All ((key, none) ∷ []) ps rs h e = cc
    manual_sort_projects-All ((key, some way) ∷ []) ps rs h e =
        sort-All (order locale_compare (selected_property key) way) ps rs h e
    manual_sort_projects-All (f ∷ g ∷ more) ps rs h e = cc

  after_project-All :
      (id : Option String) (ps rs : List Project)
      → All P ps
      → after_project id ps ≡ some rs
      → All P rs
  unfolding after_project
  after_project-All none ps rs h e = cc
  after_project-All (some id) [] rs h e = cc
  after_project-All (some id) (p ∷ ps) rs (hp, h) e = elim (Bool-cases (p.id == id)) [
    | inl f ↦ let same : some ps ≡ some rs = ground (arith, e) in subst (All P) (injective same) h
    | inr f ↦ after_project-All (some id) ps rs h (ground (arith, e))
  ]

  module _ (t : Tokens) where
    started-All :
        (o : Option (List Project)) (rs : List Project)
        → ((ps : List Project) → o ≡ some ps → All P ps)
        → started t o ≡ ok rs
        → All P rs
    started-All none rs h e = cc
    started-All (some ps) rs h e = subst (All P) (ok_injective e) (h ps refl)

    start_from-All :
        (token : Option String) (ps rs : List Project)
        → All P ps
        → start_from t token ps ≡ ok rs
        → All P rs
    start_from-All none ps rs h e = subst (All P) (ok_injective e) h
    start_from-All (some token) ps rs h e =
        let (pk, decoded, e1) =
          then-ok (t.from_token token) (λ pk. started t (after_project (part 1 (split b'#' pk)) ps))
            e in
        let id = part 1 (split b'#' pk) in
        started-All (after_project id ps) rs (λ r k. after_project-All id ps r h k) e1

    ended-All :
        (ps : List Project) (o : Option Project) (page : Page Project)
        → All P ps
        → ended t ps o ≡ ok page
        → All P page.items
    ended-All ps none page h e = cc
    ended-All ps (some p) page h e = subst (λ q. All P q.items) (ok_injective e) h

    cut_page-All :
        (n : ℕ) (ps : List Project) (page : Page Project)
        → All P ps
        → cut_page t n ps ≡ ok page
        → All P page.items
    unfolding cut_page
    cut_page-All n ps page h e = elim (Bool-cases (ltb (length ps) n)) [
      | inl f ↦
          let whole : Page Project = record { items = ps; pagination_token = none } in
          let same : ok whole ≡ ok page = ground (arith, e) in
          subst (λ q. All P q.items) (ok_injective same) h
      | inr f ↦
          ended-All (take n ps) (part (n - 1) (take n ps)) page (All-take P n ps h)
            (ground (arith, e))
    ]

    pub build_page-All :
        (token : Option String) (ps : List Project) (n : ℕ) (page : Page Project)
        → All P ps
        → build_page_and_pagination_token_after_get_items t token ps n ≡ ok page
        → All P page.items
    unfolding build_page_and_pagination_token_after_get_items start_page
    build_page-All token ps n page h e =
        let (rs, begun, e1) = then-ok (start_page t token ps) (cut_page t n) e in
        cut_page-All n rs page (start_from-All (truthy token) ps rs h begun) e1
