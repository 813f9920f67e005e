-- ===== src/Base/Views.antt =====
-- Methods that leave a view of the world as it was, whether they return or throw.
use Prim.Native.Nat.{ℕ, zero, suc}
use Prim.Native.String.{String}
use mathlib.Core.Path.{◌≡◌, refl, ◌∙◌}
use mathlib.Core.Logic.{inl, inr}
use mathlib.Core.Option.{Option, some}
use mathlib.Core.List.{List, [], ◌∷◌, ◌++◌}
use native.Mathlib.Omega.{arith}
use research_service_workben.Base.Tests.{Option-cases}
use research_service_workben.Base.Effect.{Async, Error, try_catch, ◌>>=◌, promise_all, Result-split}
use research_service_workben.Base.Pages.{Page, truthy, collect}

abbrev pub Keeps : {W V A : Type 0} → (W → V) → Async W A → Type 0
Keeps {W} view m = (w : W) → view (m w).1 ≡ view w

module _ {W V : Type 0} (view : W → V) where
  pub Keeps-bind :
      {A B : Type 0} (m : Async W A) (f : A → Async W B)
      → Keeps view m
      → ((a : A) → Keeps view (f a))
      → Keeps view (m >>= f)
  Keeps-bind m f hm hf w = elim (Result-split (m w).0) [
    | inl (a, e) ↦ ground (arith, hm w, hf a (m w).1)
    | inr (inl (x, e)) ↦ ground (arith, hm w)
    | inr (inr e) ↦ ground (arith, hm w)
  ]

  pub Keeps-try_catch :
      {A : Type 0} (m : Async W A) (handler : Error → Async W A)
      → Keeps view m
      → ((e : Error) → Keeps view (handler e))
      → Keeps view (try_catch m handler)
  Keeps-try_catch m handler hm hh w = elim (Result-split (m w).0) [
    | inl (a, e) ↦ ground (arith, hm w)
    | inr (inl (x, e)) ↦ ground (arith, hm w, hh x (m w).1)
    | inr (inr e) ↦ ground (arith, hm w)
  ]

  pub Keeps-promise_all :
      {A B : Type 0} (f : A → Async W B)
      → ((a : A) → Keeps view (f a))
      → (xs : List A) → Keeps view (promise_all f xs)
  Keeps-promise_all f h [] w = refl
  Keeps-promise_all f h (x ∷ xs) w = Keeps-promise_all f h xs (f x w).1 ∙ h x w

  pub Keeps-collect :
      {A : Type 0} (get : Option String → Async W (Page A))
      → ((t : Option String) → Keeps view (get t))
      → (fuel : ℕ) (t : Option String) (acc : List A) → Keeps view (collect fuel get t acc)
  unfolding collect
  Keeps-collect get h zero t acc w = refl
  Keeps-collect get h (suc fuel) t acc w = elim (Result-split (get t w).0) [
    | inl (page, e) ↦ elim (Option-cases (truthy page.pagination_token)) [
      | inl last ↦ ground (arith, h t w)
      | inr (n, next) ↦
          ground (arith, h t w, Keeps-collect get h fuel (some n) (acc ++ page.items) (get t w).1)
    ]
    | inr (inl (x, e)) ↦ ground (arith, h t w)
    | inr (inr e) ↦ ground (arith, h t w)
  ]
