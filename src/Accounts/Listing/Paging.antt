-- ===== src/Accounts/Listing/Paging.antt =====
-- The pages of a list of projects, and the tokens that lead from one to the next.
use mathlib.Core.Path.{subst}
use mathlib.Core.List.{append_assoc}
use text.Mathlib.TextLemmas.{nil-append, cons-append}
use research_service_workben.Base.{
  ℕ, zero, suc, ◌-◌, ◌<◌, String, true, false, Option, none, some, List, [], ◌∷◌, ◌++◌, ◌≡◌, refl,
  sym, ap, ◌∙◌, ok, Async, lift, All, Page, collect, length, take, drop, take-append-drop,
  length-drop, arith, ltb, ge→ltb, Bool-cases, inl, inr, ltb→ge, part, split, split-Without,
  Without, ◌==◌, eq_refl,
}
use research_service_workben.Accounts.Models.{Project}
use research_service_workben.Accounts.Listing.{
  Tokens, project_key, after_project, start_page, cut_page,
  build_page_and_pagination_token_after_get_items,
}

-- A token is read back as what it encodes, and is no empty text.
pub record IsEncoding (t : Tokens) : Type 0 where
  pub round_trip : (k : String) → t.from_token (t.to_token k) ≡ ok k
  pub not_empty : (k : String) → (t.to_token k == "") ≡ false

-- No two projects have the same id.
abbrev pub DistinctIds : List Project → Type 0
DistinctIds [] = Unit
DistinctIds (p ∷ ps) = All (λ q. (p.id == q.id) ≡ false) ps × DistinctIds ps

All-middle :
    (P : Project → Type 0) (xs : List Project) (p : Project) (ys : List Project)
    → All P (xs ++ p ∷ ys)
    → P p
All-middle P [] p ys (h, hs) = h
All-middle P (x ∷ xs) p ys (h, hs) = All-middle P xs p ys hs

after_project-append :
    (xs : List Project) (p : Project) (ys : List Project)
    → DistinctIds (xs ++ p ∷ ys)
    → after_project (some p.id) (xs ++ p ∷ ys) ≡ some ys
unfolding after_project
after_project-append [] p ys h = rw (eq_refl p.id)
after_project-append (x ∷ xs) p ys (new, h) =
    rw (All-middle (λ q. (x.id == q.id) ≡ false) xs p ys new) (after_project-append xs p ys h)

-- The last project of the first `n + 1`.
last_of :
    (n : ℕ) (xs : List Project)
    → n < length xs
    → (p : Project) × (init : List Project) × (part n (take (suc n) xs) ≡ some p)
      × (take (suc n) xs ≡ init ++ p ∷ [])
last_of n [] h = absurd (omega (arith, h))
last_of zero (x ∷ xs) h = (x, [], refl, refl)
last_of (suc n) (x ∷ xs) h =
    let (p, init, e, f) = last_of n xs (omega (arith, h)) in (p, x ∷ init, e, ap (λ l. x ∷ l) f)

part-split_key : (id : String) → Without b'#' id → part 1 (split b'#' (project_key id)) ≡ some id
unfolding split project_key
part-split_key id h =
    rw
      (
        cons-append,
        cons-append,
        cons-append,
        cons-append,
        cons-append,
        nil-append,
        split-Without b'#' id h,
      )
      refl

module _ (t : Tokens) (encoding : IsEncoding t) where
  start_page-token :
      (xs : List Project) (p : Project) (ys : List Project)
      → DistinctIds (xs ++ p ∷ ys)
      → Without b'#' p.id
      → start_page t (some (t.to_token (project_key p.id))) (xs ++ p ∷ ys) ≡ ok ys
  unfolding start_page
  start_page-token xs p ys h hp =
      rw
        (
          encoding.not_empty (project_key p.id),
          encoding.round_trip (project_key p.id),
          part-split_key p.id hp,
          after_project-append xs p ys h,
        )
        refl

  -- The list from which pages of `n + 1` projects are cut.
  module _ (projects : List Project) (n : ℕ) (distinct : DistinctIds projects)
      (plain : All (λ p. Without b'#' p.id) projects) where
    abbrev get_page : {W : Type 0} → Option String → Async W (Page Project)
    get_page token = lift (build_page_and_pagination_token_after_get_items t token projects (suc n))

    -- A full page, and where the next one begins.
    full_page :
        (token : Option String) (xs rest : List Project)
        → start_page t token projects ≡ ok rest
        → projects ≡ xs ++ rest
        → n < length rest
        → (next : String) × (build_page_and_pagination_token_after_get_items t token projects
              (suc n)
            ≡ ok (record { items = take (suc n) rest; pagination_token = some next }))
          × ((next == "") ≡ false)
          × (start_page t (some next) projects ≡ ok (drop (suc n) rest))
    unfolding build_page_and_pagination_token_after_get_items cut_page
    full_page token xs rest started_at whole long =
        let (p, init, e, f) = last_of n rest long in
        let pred : suc n - 1 ≡ n = omega arith in
        let parts : rest ≡ init ++ p ∷ drop (suc n) rest =
          sym (take-append-drop (suc n) rest)
          ∙ (ap (λ l. l ++ drop (suc n) rest) f ∙ append_assoc init (p ∷ []) (drop (suc n) rest)) in
        let middle : projects ≡ (xs ++ init) ++ p ∷ drop (suc n) rest =
          whole ∙ (ap (λ l. xs ++ l) parts ∙ sym (append_assoc xs init (p ∷ drop (suc n) rest))) in
        (
          t.to_token (project_key p.id),
          rw (started_at, ge→ltb (length rest) (suc n) long, pred, e) refl,
          encoding.not_empty (project_key p.id),
          ap (start_page t (some (t.to_token (project_key p.id)))) middle
              ∙ start_page-token (xs ++ init) p (drop (suc n) rest)
                  (subst DistinctIds middle distinct)
                  (All-middle (λ q. Without b'#' q.id) (xs ++ init) p (drop (suc n) rest)
                    (subst (All (λ q. Without b'#' q.id)) middle plain)),
        )

    short_page :
        (token : Option String) (rest : List Project)
        → start_page t token projects ≡ ok rest
        → ltb (length rest) (suc n) ≡ true
        → build_page_and_pagination_token_after_get_items t token projects (suc n)
          ≡ ok (record { items = rest; pagination_token = none })
    unfolding build_page_and_pagination_token_after_get_items cut_page
    short_page token rest started_at short = rw (started_at, short) refl

    pages_from :
        {W : Type 0} (fuel : ℕ) (token : Option String) (xs rest acc : List Project) (w : W)
        → start_page t token projects ≡ ok rest
        → projects ≡ xs ++ rest
        → length rest < fuel
        → collect fuel get_page token acc w ≡ (ok (acc ++ rest), w)
    unfolding collect
    pages_from zero token xs rest acc w started_at whole enough = absurd (omega (arith, enough))
    pages_from (suc fuel) token xs rest acc w started_at whole enough =
        elim (Bool-cases (ltb (length rest) (suc n))) [
          | inl short ↦ let page = short_page token rest started_at short in ground (arith, page)
          | inr long ↦
              let (next, page, not_empty, started_next) =
                full_page token xs rest started_at whole (ltb→ge (length rest) (suc n) long) in
              let later =
                pages_from fuel (some next) (xs ++ take (suc n) rest) (drop (suc n) rest)
                  (acc ++ take (suc n) rest) w started_next
                  (whole
                    ∙ (ap (λ l. xs ++ l) (sym (take-append-drop (suc n) rest))
                        ∙ sym (append_assoc xs (take (suc n) rest) (drop (suc n) rest))))
                  (omega
                    (arith, enough, length-drop (suc n) rest, ltb→ge (length rest) (suc n) long)) in
              let joined : (acc ++ take (suc n) rest) ++ drop (suc n) rest ≡ acc ++ rest =
                append_assoc acc (take (suc n) rest) (drop (suc n) rest)
                ∙ ap (λ l. acc ++ l) (take-append-drop (suc n) rest) in
              ground (arith, page, not_empty, later, joined)
        ]

  -- From the first page on, following the token of each page to the next comes to an end, and the
  -- pages together are the whole list in its order, each project once: for a page size that is not
  -- 0, projects with distinct ids that hold no `#`, and tokens that are read back as written.
  pub collect-build_page :
      {W : Type 0} (projects : List Project) (size fuel : ℕ) (w : W)
      → 0 < size
      → DistinctIds projects
      → All (λ p. Without b'#' p.id) projects
      → length projects < fuel
      → collect fuel
          (λ token. lift (build_page_and_pagination_token_after_get_items t token projects size))
          none
          []
          w
        ≡ (ok projects, w)
  unfolding start_page
  collect-build_page projects zero fuel w positive distinct plain enough =
      absurd (omega (arith, positive))
  collect-build_page projects (suc n) fuel w positive distinct plain enough =
      pages_from projects n distinct plain fuel none [] projects [] w refl refl enough
