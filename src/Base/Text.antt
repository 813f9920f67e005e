-- ===== src/Base/Text.antt =====
-- `String.split` by one character, `Array.join`, and texts that do not hold a character.
use Prim.Native.Nat.{◌+◌, ◌-◌, ◌/◌, ◌%◌, ℕ, compare, Ordering}
use Prim.Native.Char.{Char, code}
use Prim.Native.String
use Prim.Native.String.{String, [], ◌∷◌}
use mathlib.Core.Path.{◌≡◌, refl, sym, ◌∙◌}
use mathlib.Core.Logic.{◌⊎◌, ◌≢◌, inl, inr}
use text.Mathlib.Text.{◌==◌}
use text.Mathlib.TextEquality.{eq_iff}
use mathlib.Core.Bool.{Bool, true, false, false≢true}
use mathlib.Core.List.{List, [], ◌∷◌}
use mathlib.Core.Option.{Option, none, some}
use text.Mathlib.TextLemmas.{nil-append, cons-append}
use research_service_workben.Base.Tests.{if◌then◌else◌, ltb}

abbrev pub nat_eq : ℕ → ℕ → Bool
nat_eq a b = elim (compare a b) [ Ordering.eq ↦ true | _ ↦ false ]

-- A text as JavaScript holds it: its UTF-16 code units.
abbrev pub units : String → List ℕ
units [] = []
units (c ∷ s) =
    if ltb (code c) 65536
    then code c ∷ units s
    else (55296 + (code c - 65536) / 1024) ∷ (56320 + (code c - 65536) % 1024) ∷ units s

infixr 65 ◌<>◌
abbrev pub ◌<>◌ : String → String → String
s <> t = String.◌++◌ s t

abbrev pub lengthen : Char → List String → List String
lengthen c [] = (c ∷ []) ∷ []
lengthen c (p ∷ ps) = (c ∷ p) ∷ ps

-- `s.split(d)`, for a separator of one character
unfoldable pub split : ℕ → String → List String
split d [] = "" ∷ []
split d (c ∷ s) = let rest = split d s in if nat_eq (code c) d then "" ∷ rest else lengthen c rest

-- `parts[i]` for the first two and the fourth part
abbrev pub part {ℓ} : {A : Type ℓ} → ℕ → List A → Option A
part n [] = none
part ℕ.zero (x ∷ xs) = some x
part (ℕ.suc n) (x ∷ xs) = part n xs

abbrev pub Without : ℕ → String → Type 0
Without d [] = Unit
Without d (c ∷ s) = (nat_eq (code c) d ≡ false) × Without d s

pub split-Without : (d : ℕ) (s : String) → Without d s → split d s ≡ s ∷ []
unfolding split
split-Without d [] h = refl
split-Without d (c ∷ s) (h, hs) = rw (h, split-Without d s hs)

pub split-append :
    (d : ℕ) (s t : String) (c : Char)
    → Without d s
    → nat_eq (code c) d ≡ true
    → split d (s <> c ∷ t) ≡ s ∷ split d t
unfolding split
split-append d [] t c h e = rw (nil-append, e)
split-append d (b ∷ s) t c (h, hs) e = rw (cons-append, h, split-append d s t c hs e)

pub text_cases : (s t : String) → (s ≡ t) ⊎ (s ≢ t)
text_cases s t = go (s == t) refl
  where
    go : (b : Bool) → (s == t) ≡ b → (s ≡ t) ⊎ (s ≢ t)
    go true e = inl ((eq_iff s t).0 e)
    go false e = inr (λ same. false≢true (sym e ∙ (eq_iff s t).1 same))
