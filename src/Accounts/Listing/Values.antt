-- ===== src/Accounts/Listing/Values.antt =====
-- The values of projects under the key of a request to sort or to filter.
use mathlib.Core.Bool.{false≢true}
use research_service_workben.Base.{
  String, true, Option, none, some, ◌≡◌, ◌≢◌, ◌⊎◌, refl, sym, ap, ◌∙◌, inl, inr, Bool-cases,
  is_some, lookup, ◌==◌, eq_iff,
}
use research_service_workben.Accounts.Models.{Project, properties}
use research_service_workben.Accounts.Listing.{selected_property}

-- Every project has the property.
abbrev pub IsProperty : String → Type 0
IsProperty key = (p : Project) → is_some (lookup key (properties p)) ≡ true

-- The value of a project under the key of a request.
abbrev pub HasValue : String → Project → String → Type 0
HasValue key p a =
    ((key ≡ "dependency") × (p.cost_center_id ≡ a))
    ⊎ ((key ≢ "dependency") × (lookup key (properties p) ≡ some a))

pub some_injective : {A : Type 0} {a b : A} → some a ≡ some b → a ≡ b
some_injective h = cc

pub lookup-HasValue :
    (key : String) (p : Project) (a : String)
    → lookup (selected_property key) (properties p) ≡ some a
    → HasValue key p a
unfolding properties
lookup-HasValue key p a h = elim (Bool-cases (key == "dependency")) [
  | inl e ↦
      let selected : selected_property key ≡ "costCenterId" = rw e refl in
      inl (
        (eq_iff key "dependency").0 e,
        some_injective (sym (ap (λ k. lookup k (properties p)) selected) ∙ h),
      )
  | inr e ↦
      let selected : selected_property key ≡ key = rw e refl in
      inr (
        λ k. false≢true (sym e ∙ (eq_iff key "dependency").1 k),
        sym (ap (λ k. lookup k (properties p)) selected) ∙ h,
      )
]

pub HasValue-lookup :
    (key : String) (p : Project) (a : String)
    → HasValue key p a
    → lookup (selected_property key) (properties p) ≡ some a
unfolding properties
HasValue-lookup key p a (inl (k, c)) =
    let dependency : (key == "dependency") ≡ true = (eq_iff key "dependency").1 k in
    let selected : selected_property key ≡ "costCenterId" = rw dependency refl in
    ap (λ k. lookup k (properties p)) selected ∙ ap some c
HasValue-lookup key p a (inr (ne, h)) = elim (Bool-cases (key == "dependency")) [
  | inl e ↦ absurd (ne ((eq_iff key "dependency").0 e))
  | inr e ↦
      let selected : selected_property key ≡ key = rw e refl in
      ap (λ k. lookup k (properties p)) selected ∙ h
]

pub value_of : (o : Option String) → is_some o ≡ true → (a : String) × (o ≡ some a)
value_of none h = cc
value_of (some a) h = (a, refl)
