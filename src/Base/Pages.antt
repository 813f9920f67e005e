-- ===== src/Base/Pages.antt =====
-- Reading a table page by page, and cutting a list into chunks.
use Prim.Native.Nat.{ℕ, zero, suc, ◌-◌, ◌≤◌, ◌<◌}
use Prim.Native.String.{String}
use mathlib.Core.Path.{◌≡◌, refl, ap}
use mathlib.Core.Option.{Option, none, some}
use mathlib.Core.List.{List, [], ◌∷◌, ◌++◌, append_assoc}
use mathlib.Core.Logic.{inl, inr}
use native.Mathlib.Omega.{arith}
use text.Mathlib.Text.{◌==◌}
use research_service_workben.Base.Tests.{if◌then◌else◌, Option-cases}
use research_service_workben.Base.Lists.{
  length, take, drop, All, take-append-drop, length-take, length-drop,
}
use research_service_workben.Base.Effect.{Async, ok, hang, pure, lift, ◌>>=◌}

pub record Page (A : Type 0) : Type 0 where
  pub items : List A
  pub pagination_token : Option String

-- A token that counts as true: there is one, and it is not empty.
abbrev pub truthy : Option String → Option String
truthy none = none
truthy (some t) = if t == "" then none else some t

-- `do { page = await get(token); … } while (token)`, with fuel.
unfoldable pub collect :
    {W A : Type 0}
    → ℕ
    → (Option String → Async W (Page A))
    → Option String
    → List A
    → Async W (List A)
collect zero get token acc = lift hang
collect (suc f) get token acc = get token >>= λ page. elim (truthy page.pagination_token) [
  | none ↦ pure (acc ++ page.items)
  | some t ↦ collect f get (some t) (acc ++ page.items)
]

-- A reader that in the world `w`, which it leaves as it is, serves from each token on the items `rest token`
-- in pages, and comes to an end: `left` falls from a token to the next.
pub record IsPaged {W A : Type 0} (get : Option String → Async W (Page A))
    (rest : Option String → List A) (left : Option String → ℕ) (w : W) : Type 0 where
  pub page : Option String → Page A
  pub get_page : (t : Option String) → get t w ≡ (ok (page t), w)
  pub last : (t : Option String) → truthy (page t).pagination_token ≡ none → rest t ≡ (page t).items
  pub more :
      (t : Option String) (n : String)
      → truthy (page t).pagination_token ≡ some n
      → (rest t ≡ (page t).items ++ rest (some n)) × (left (some n) < left t)

-- With enough fuel the loop returns all items, in their order.
pub collect-IsPaged :
    {W A : Type 0} {get : Option String → Async W (Page A)} {rest : Option String → List A}
    {left : Option String → ℕ} {w : W}
    → IsPaged get rest left w
    → (f : ℕ) (t : Option String) (acc : List A) → left t < f
    → collect f get t acc w ≡ (ok (acc ++ rest t), w)
unfolding collect
collect-IsPaged p zero t acc h = elim h [ ]
collect-IsPaged {get} {rest} {left} p (suc f) t acc h =
    elim (Option-cases (truthy (p.page t).pagination_token)) [
      | inl done ↦ ground (arith, p.get_page t, p.last t done)
      | inr (n, e) ↦
          let (here, falls) = p.more t n e in
          let later =
            collect-IsPaged p f (some n) (acc ++ (p.page t).items) (omega (arith, falls)) in
          ground
            (arith, p.get_page t, later, here, append_assoc acc (p.page t).items (rest (some n)))
    ]

unfoldable pub chunk_from : {A : Type 0} → ℕ → ℕ → List A → List (List A)
chunk_from zero n xs = []
chunk_from (suc f) n [] = []
chunk_from (suc f) n (x ∷ xs) = (x ∷ take (n - 1) xs) ∷ chunk_from f n (drop (n - 1) xs)

-- `_.chunk(xs, n)`; each chunk takes at least one item, so the length of the list is fuel enough.
unfoldable pub chunk : {A : Type 0} → ℕ → List A → List (List A)
unfolding chunk_from
chunk n xs = chunk_from (length xs) n xs

abbrev pub concat : {A : Type 0} → List (List A) → List A
concat [] = []
concat (xs ∷ xss) = xs ++ concat xss

concat-chunk_from :
    {A : Type 0} (f n : ℕ) (xs : List A) → length xs ≤ f → concat (chunk_from f n xs) ≡ xs
unfolding chunk_from
concat-chunk_from zero n [] h = refl
concat-chunk_from zero n (x ∷ xs) h = absurd (omega arith)
concat-chunk_from (suc f) n [] h = refl
concat-chunk_from (suc f) n (x ∷ xs) h =
    rw (concat-chunk_from f n (drop (n - 1) xs) (omega (arith, length-drop {0} (n - 1) xs)))
      (ap (λ l. x ∷ l) (take-append-drop (n - 1) xs))

pub concat-chunk : {A : Type 0} (n : ℕ) (xs : List A) → concat (chunk n xs) ≡ xs
unfolding chunk
concat-chunk n xs = concat-chunk_from (length xs) n xs (omega arith)

chunk_from_bounds :
    {A : Type 0} (f n : ℕ) (xs : List A) → 0 < n → All (λ c. length c ≤ n) (chunk_from f n xs)
unfolding chunk_from
chunk_from_bounds zero n xs h = tt
chunk_from_bounds (suc f) n [] h = tt
chunk_from_bounds (suc f) n (x ∷ xs) h =
    (omega (arith, length-take {0} (n - 1) xs), chunk_from_bounds f n (drop (n - 1) xs) h)

pub chunk_bounds : {A : Type 0} (n : ℕ) (xs : List A) → 0 < n → All (λ c. length c ≤ n) (chunk n xs)
unfolding chunk
chunk_bounds n xs h = chunk_from_bounds (length xs) n xs h
