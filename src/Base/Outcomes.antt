-- ===== src/Base/Outcomes.antt =====
-- Whether a method returns, and the world after it, where its parts change nothing before they throw.
use mathlib.Core.Bool.{Bool, true, false}
use mathlib.Core.Path.{◌≡◌, refl, ap, ◌∙◌}
use mathlib.Core.Logic.{◌⊎◌, inl, inr}
use native.Mathlib.Omega.{arith}
use research_service_workben.Base.Effect.{
  Async, Result, ok, err, hang, settle, both, ◌>>=◌, Result-split, lift,
}

abbrev pub is_ok : {A : Type 0} → Result A → Bool
is_ok (ok a) = true
is_ok (err e) = false
is_ok hang = false

settle-fails :
    {A B C : Type 0} (f : A → B → C) (r : Result A) (q : Result B)
    → (is_ok r ≡ false) ⊎ (is_ok q ≡ false)
    → is_ok (settle f r q) ≡ false
settle-fails f (ok a) (ok b) h = elim h [ inl e ↦ e | inr e ↦ e ]
settle-fails f (ok a) (err e) h = refl
settle-fails f (ok a) hang h = refl
settle-fails f (err e) q h = refl
settle-fails f hang q h = refl

module _ {W A B : Type 0} (m : Async W A) (n : Async W B) (w : W) (m_same : (m w).1 ≡ w)
    (n_same : (n w).1 ≡ w) where
  pub both_same : (both m n w).1 ≡ w
  both_same = ap (λ v. (n v).1) m_same ∙ n_same

  pub both-ok : {a : A} {b : B} → (m w).0 ≡ ok a → (n w).0 ≡ ok b → (both m n w).0 ≡ ok (a, b)
  both-ok h k = let later = ap (λ v. (n v).0) m_same ∙ k in ground (arith, h, later)

  pub both-fails : (is_ok (m w).0 ≡ false) ⊎ (is_ok (n w).0 ≡ false) → is_ok (both m n w).0 ≡ false
  both-fails h =
      settle-fails (λ a b. (a, b)) (m w).0 (n (m w).1).0
        (elim h [ inl e ↦ inl e | inr e ↦ inr (ap (λ v. is_ok (n v).0) m_same ∙ e) ])

pub bind-fails :
    {W A B : Type 0} (m : Async W A) (f : A → Async W B) (w : W)
    → is_ok (m w).0 ≡ false
    → (is_ok ((m >>= f) w).0 ≡ false) × (((m >>= f) w).1 ≡ (m w).1)
bind-fails m f w h = elim (Result-split (m w).0) [
  | inl (a, e) ↦ absurd (ground arith)
  | inr (inl (x, e)) ↦ (ground arith, ground arith)
  | inr (inr e) ↦ (ground arith, ground arith)
]

pub bind-runs :
    {W A B : Type 0} (m : Async W A) (f : A → Async W B) (w : W) {a : A}
    → (m w).0 ≡ ok a
    → (m w).1 ≡ w
    → ((m >>= f) w).1 ≡ (f a w).1
bind-runs m f w {a} e k = let moved = ap (λ v. (f a v).1) k in ground (arith, e, moved)

-- What is done with a result without touching the world.
pub bind-lift_world :
    {W A B : Type 0} (m : Async W A) (f : A → Result B) (w : W)
    → ((m >>= λ a. lift (f a)) w).1 ≡ (m w).1
bind-lift_world m f w = elim (Result-split (m w).0) [
  | inl (a, e) ↦ ground arith
  | inr (inl (x, e)) ↦ ground arith
  | inr (inr e) ↦ ground arith
]

pub bind-continues :
    {W A B : Type 0} (m : Async W A) (f : A → Async W B) (w : W) {a : A}
    → (m w).0 ≡ ok a
    → (m w).1 ≡ w
    → (m >>= f) w ≡ f a w
bind-continues m f w {a} e k = let moved = ap (λ v. f a v) k in ground (arith, e, moved)

-- After a call that returned, its continuation runs.
pub bind-on :
    {W A B : Type 0} (m : Async W A) (f : A → Async W B) (w : W) {a : A}
    → (m w).0 ≡ ok a
    → (m >>= f) w ≡ f a (m w).1
bind-on m f w e = ground (arith, e)
