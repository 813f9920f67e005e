-- ===== src/Datasets/Service/Listing.antt =====
-- The pages of data sets that a user is given.
use research_service_workben.Base.{
  ℕ, zero, suc, ◌≤◌, ◌-◌, String, Option, none, some, List, [], ◌∷◌, ◌++◌, ◌≡◌, refl, ap, ◌∙◌, inl,
  inr, ok, arith, Async, pure, lift, promise_all, ◌>>=◌, All, All-append, All-take, length,
  length-take, take, concat, part, ltb, leb, ltb→ge, Bool-cases, Result-split, Option-cases,
  bind-ok, ok_injective, promise_all-ok, Page,
}
use mathlib.Core.Path.{subst}
use research_service_workben.Authorization.Models.{AuthenticatedUser}
use research_service_workben.Datasets.Models.{DataSet}
use research_service_workben.Datasets.Plugins.{DataSetService}
use research_service_workben.Datasets.Service.{
  with_audit-ok, is_forbidden, insert_newest, sort_newest, visible, visible_among, next_token,
  read_visible, ended, cut_newest, list_data_sets,
}

module _ {ℓ} {A : Type 0} (P : A → Type ℓ) where
  All-concat : (xss : List (List A)) → All (λ xs. All P xs) xss → All P (concat xss)
  All-concat [] h = tt
  All-concat (xs ∷ xss) (h, hs) = All-append P xs (concat xss) h (All-concat xss hs)

module _ (date_parse : String → ℕ) where
  -- No data set comes before a newer one.
  abbrev pub IsNewestFirst : List DataSet → Type 0
  IsNewestFirst [] = Unit
  IsNewestFirst (d ∷ ds) =
      All (λ x. date_parse x.created_at ≤ date_parse d.created_at) ds × IsNewestFirst ds

  insert_newest-All :
      (P : DataSet → Type 0) (d : DataSet) (ds : List DataSet)
      → P d
      → All P ds
      → All P (insert_newest date_parse d ds)
  unfolding insert_newest
  insert_newest-All P d [] p h = (p, tt)
  insert_newest-All P d (x ∷ xs) p (q, h) =
      elim (Bool-cases (leb (date_parse x.created_at) (date_parse d.created_at))) [
        | inl e ↦ rw e (p, (q, h))
        | inr e ↦ rw e (q, insert_newest-All P d xs p h)
      ]

  older :
      (d x : DataSet) (xs : List DataSet)
      → date_parse x.created_at ≤ date_parse d.created_at
      → All (λ y. date_parse y.created_at ≤ date_parse x.created_at) xs
      → All (λ y. date_parse y.created_at ≤ date_parse d.created_at) xs
  older d x [] le h = tt
  older d x (y ∷ ys) le (k, h) = (omega (arith, k, le), older d x ys le h)

  insert_newest-IsNewestFirst :
      (d : DataSet) (ds : List DataSet)
      → IsNewestFirst ds
      → IsNewestFirst (insert_newest date_parse d ds)
  unfolding insert_newest
  insert_newest-IsNewestFirst d [] h = (tt, tt)
  insert_newest-IsNewestFirst d (x ∷ xs) (k, h) =
      elim (Bool-cases (leb (date_parse x.created_at) (date_parse d.created_at))) [
        | inl e ↦
            let le : date_parse x.created_at ≤ date_parse d.created_at = ground arith in
            rw e ((le, older d x xs le k), (k, h))
        | inr e ↦ rw e (
          insert_newest-All (λ y. date_parse y.created_at ≤ date_parse x.created_at) d xs
              (ground arith) k,
          insert_newest-IsNewestFirst d xs h,
        )
      ]

  sort_newest-All :
      (P : DataSet → Type 0) (ds : List DataSet) → All P ds → All P (sort_newest date_parse ds)
  unfolding sort_newest
  sort_newest-All P [] h = tt
  sort_newest-All P (d ∷ ds) (p, h) =
      insert_newest-All P d (sort_newest date_parse ds) p (sort_newest-All P ds h)

  sort_newest-IsNewestFirst : (ds : List DataSet) → IsNewestFirst (sort_newest date_parse ds)
  unfolding sort_newest
  sort_newest-IsNewestFirst [] = tt
  sort_newest-IsNewestFirst (d ∷ ds) =
      insert_newest-IsNewestFirst d (sort_newest date_parse ds) (sort_newest-IsNewestFirst ds)

  length-insert_newest :
      (d : DataSet) (ds : List DataSet) → length (insert_newest date_parse d ds) ≡ suc (length ds)
  unfolding insert_newest
  length-insert_newest d [] = refl
  length-insert_newest d (x ∷ xs) =
      elim (Bool-cases (leb (date_parse x.created_at) (date_parse d.created_at))) [
        | inl e ↦ rw e refl
        | inr e ↦ rw e (ap suc (length-insert_newest d xs))
      ]

  length-sort_newest : (ds : List DataSet) → length (sort_newest date_parse ds) ≡ length ds
  unfolding sort_newest
  length-sort_newest [] = refl
  length-sort_newest (d ∷ ds) =
      length-insert_newest d (sort_newest date_parse ds) ∙ ap suc (length-sort_newest ds)

  take-IsNewestFirst : (n : ℕ) (ds : List DataSet) → IsNewestFirst ds → IsNewestFirst (take n ds)
  take-IsNewestFirst zero ds h = tt
  take-IsNewestFirst (suc n) [] h = tt
  take-IsNewestFirst (suc n) (d ∷ ds) (k, h) = (
    All-take (λ x. date_parse x.created_at ≤ date_parse d.created_at) n ds k,
    take-IsNewestFirst n ds h,
  )

module _ {W : Type 0} (s : DataSetService W) (u : AuthenticatedUser) where
  -- The authorization plugin let the user read the data set.
  abbrev pub IsVisible : DataSet → Type 0
  IsVisible d = (w : W) × ((s.authz.is_authorized_on_data_set d.id "read-only" u w).0 ≡ ok tt)

  visible-IsVisible :
      (d : DataSet) (w : W) (ds : List DataSet) → (visible s u d w).0 ≡ ok ds → All IsVisible ds
  unfolding visible
  visible-IsVisible d w ds h =
      elim (Result-split (s.authz.is_authorized_on_data_set d.id "read-only" u w).0) [
        | inl (a, e) ↦
            let same : d ∷ [] ≡ ds = ok_injective (ground arith) in
            subst (All IsVisible) same ((w, e), tt)
        | inr (inl (x, e)) ↦ elim (Bool-cases (is_forbidden x)) [
          | inl f ↦
              let same : [] ≡ ds = ok_injective (ground arith) in subst (All IsVisible) same tt
          | inr f ↦ absurd (ground arith)
        ]
        | inr (inr e) ↦ absurd (ground arith)
      ]

  promise_all-IsVisible :
      (ds : List DataSet) (w : W) (dss : List (List DataSet))
      → (promise_all (visible s u) ds w).0 ≡ ok dss
      → All (λ ds. All IsVisible ds) dss
  promise_all-IsVisible [] w dss h = subst (All (λ ds. All IsVisible ds)) (ok_injective h) tt
  promise_all-IsVisible (d ∷ ds) w dss h =
      let (found, rest, e, f, same) = promise_all-ok (visible s u) d ds w h in
      subst (All (λ ds. All IsVisible ds)) same
        (visible-IsVisible d w found e, promise_all-IsVisible ds (visible s u d w).1 rest f)

  visible_among-IsVisible :
      (ds : List DataSet) (w : W) (found : List DataSet)
      → (visible_among s u ds w).0 ≡ ok found
      → All IsVisible found
  visible_among-IsVisible ds w found h =
      let (dss, e, same) =
        bind-ok (promise_all (visible s u) ds)
          (λ (dss : List (List DataSet)). pure {W = W} (concat dss)) w h in
      subst (All IsVisible) (ok_injective same)
        (All-concat IsVisible dss (promise_all-IsVisible ds w dss e))

  read_visible-IsVisible :
      (fuel page_size : ℕ) (token : Option String) (acc : List DataSet) (w : W)
      (r : List DataSet × Option String)
      → All IsVisible acc
      → (read_visible s fuel u page_size token acc w).0 ≡ ok r
      → All IsVisible r.0
  unfolding read_visible
  read_visible-IsVisible zero page_size token acc w r k h = cc
  read_visible-IsVisible (suc f) page_size token acc w r k h =
      let (page, e, h1) =
        bind-ok (s.db.list_data_sets page_size token)
          (λ page. visible_among s u page.items >>= λ found. continued page found) w h in
      let w1 = (s.db.list_data_sets page_size token w).1 in
      let (found, e1, h2) =
        bind-ok (visible_among s u page.items) (λ found. continued page found) w1 h1 in
      let all_visible =
        All-append IsVisible acc found k (visible_among-IsVisible page.items w1 found e1) in
      elim (Option-cases
        (next_token (ltb (length (acc ++ found)) page_size) page.pagination_token)) [
          | inl last ↦
              let same : (acc ++ found, page.pagination_token) ≡ r =
                ok_injective (ground (arith, h2)) in
              subst (All IsVisible) (ap (λ p. p.0) same) all_visible
          | inr (t, next) ↦
              read_visible-IsVisible f page_size (some t) (acc ++ found)
                (visible_among s u page.items w1).1 r all_visible (ground (arith, h2))
        ]
    where
      continued : Page DataSet → List DataSet → Async W (List DataSet × Option String)
      continued page found =
          elim (next_token (ltb (length (acc ++ found)) page_size) page.pagination_token) [
            | none ↦ pure (acc ++ found, page.pagination_token)
            | some t ↦ read_visible s f u page_size (some t) (acc ++ found)
          ]

  -- What is promised of a page: the user may read each data set, there are no more than the page takes,
  -- and newer data sets come first.
  pub record IsVisiblePage (page_size : ℕ) (page : Page DataSet) : Type 0 where
    pub all_visible : All IsVisible page.items
    pub bounded : length page.items ≤ page_size
    pub newest_first : IsNewestFirst s.date_parse page.items

  cut_newest-IsVisiblePage :
      (page_size : ℕ) (ds : List DataSet) (token : Option String) (page : Page DataSet)
      → All IsVisible ds
      → cut_newest s page_size ds token ≡ ok page
      → IsVisiblePage page_size page
  unfolding cut_newest
  cut_newest-IsVisiblePage page_size ds token page k h =
      let newest = sort_newest s.date_parse ds in
      let sorted = sort_newest-IsNewestFirst s.date_parse ds in
      let kept = sort_newest-All s.date_parse IsVisible ds k in
      elim (Bool-cases (ltb page_size (length ds))) [
        | inl over ↦ elim (Option-cases (part (page_size - 1) (take page_size newest))) [
          | inl e ↦ absurd (ground arith)
          | inr (d, e) ↦
              let same : ended s (take page_size newest) (some d) ≡ ok page = ground (arith, h) in
              subst (IsVisiblePage page_size) (ok_injective same) (record {
                all_visible = All-take IsVisible page_size newest kept;
                bounded = omega (arith, length-take {0} page_size newest);
                newest_first = take-IsNewestFirst s.date_parse page_size newest sorted;
              })
        ]
        | inr under ↦
            let whole : Page DataSet = record { items = newest; pagination_token = token } in
            let same : whole ≡ page = ok_injective (ground (arith, h)) in
            subst (IsVisiblePage page_size) same (record {
              all_visible = kept;
              bounded =
                  omega
                    (arith, length-sort_newest s.date_parse ds, ltb→ge page_size (length ds) under);
              newest_first = sorted;
            })
      ]

  -- A page that listDataSets returns holds at most as many data sets as asked for, the newest first, each
  -- of which the authorization plugin let the user read.
  pub list_data_sets-IsVisiblePage :
      (fuel page_size : ℕ) (token : Option String) (w : W) {page : Page DataSet}
      → (list_data_sets s fuel u page_size token w).0 ≡ ok page
      → IsVisiblePage page_size page
  unfolding list_data_sets
  list_data_sets-IsVisiblePage fuel page_size token w {page} h =
      let reading = read_visible s fuel u page_size token [] in
      let cut = λ (found : List DataSet × Option String).
        lift {W = W} (cut_newest s page_size found.0 found.1) in
      let inner = with_audit-ok s u "listDataSets" (reading >>= cut) w h in
      let (found, read, rest) = bind-ok reading cut w inner in
      cut_newest-IsVisiblePage page_size found.0 found.1 page
        (read_visible-IsVisible fuel page_size token [] w found tt read) rest
