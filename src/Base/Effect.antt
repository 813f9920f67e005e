-- ===== src/Base/Effect.antt =====
-- Asynchronous methods: a state and an exception. What was written before a `throw` stays written.
-- A `Promise.all` whose parts do not depend on one another is a sequence.
use native.Mathlib.Omega.{arith}
use mathlib.Core.Bool.{Bool, true, false}
use mathlib.Core.Path.{◌≡◌, refl, ap, ◌∙◌}
use mathlib.Core.Logic.{◌⊎◌, ◌≢◌, inl, inr}
use mathlib.Core.List.{List, [], ◌∷◌}
use Prim.Native.String.{String}
use research_service_workben.Base.Tests.{if◌then◌else◌}

-- The errors that the code tells apart, by class or by name; `other` is any other, by its name.
pub data Error : Type 0 where
  group_not_found group_already_exists role_not_found role_already_exists : Error
  param_not_found route_not_found route_not_secured route_map : Error
  forbidden retry throughput_exceeded permission_creation : Error
  conditional_check_failed resource_not_found throughput_of_table request_limit : Error
  transaction_canceled plugin_configuration too_many_requests : Error
  invalid_permission not_authorized endpoint_not_found has_endpoint invalid_parameter : Error
  storage_not_found account_not_found invalid_account_state invalid_pagination_token : Error
  idp_unavailable user_not_found audit_incomplete : Error
  bad_request not_found internal bad_implementation : Error
  other : String → Error

-- `hang` is a call that has not come back when the fuel is used up; nothing catches it.
pub data Result (A : Type 0) : Type 0 where
  ok : A → Result A
  err : Error → Result A
  hang : Result A

-- A method over a world `W`.
abbrev pub Async : Type 0 → Type 0 → Type 0
Async W A = W → Result A × W

module _ {W A : Type 0} where
  abbrev pub pure : A → Async W A
  pure a w = (ok a, w)

  abbrev pub throw : Error → Async W A
  throw e w = (err e, w)

  abbrev pub lift : Result A → Async W A
  lift r w = (r, w)

  abbrev pub run_catch : (Error → Async W A) → Result A × W → Result A × W
  run_catch handler (ok a, w) = (ok a, w)
  run_catch handler (err e, w) = handler e w
  run_catch handler (hang, w) = (hang, w)

  abbrev pub try_catch : Async W A → (Error → Async W A) → Async W A
  try_catch m handler w = run_catch handler (m w)

infixl 5 ◌>>=◌ ◌>>◌
abbrev pub ◌>>=◌ : {W A B : Type 0} → Async W A → (A → Async W B) → Async W B
◌>>=◌ m f w =
    let (r, w') = m w in elim r [ ok a ↦ f a w' | err e ↦ (err e, w') | hang ↦ (hang, w') ]

abbrev pub ◌>>◌ : {W A B : Type 0} → Async W A → Async W B → Async W B
m >> k = m >>= λ _. k

abbrev pub throw_if : {W : Type 0} → Bool → Error → Async W (Unit {0})
throw_if c e w = (if c then err e else ok tt, w)

-- `for (const x of xs) await f(x)`
abbrev pub for_each : {W A : Type 0} → (A → Async W (Unit {0})) → List A → Async W (Unit {0})
for_each f [] = pure tt
for_each f (x ∷ xs) = f x >> for_each f xs

-- What `Promise.all` makes of two results: the first error, if there is one.
abbrev pub settle : {A B C : Type 0} → (A → B → C) → Result A → Result B → Result C
settle f (ok a) (ok b) = ok (f a b)
settle f (ok a) (err e) = err e
settle f (ok a) hang = hang
settle f (err e) r = err e
settle f hang r = hang

-- `await Promise.all([m, n])`: both run, also where one of them throws.
abbrev pub both : {W A B : Type 0} → Async W A → Async W B → Async W (A × B)
both m n w = let (r, w') = m w in let (s, w'') = n w' in (settle (λ a b. (a, b)) r s, w'')

-- `await Promise.all(xs.map(f))`: every call runs, also after one that throws.
abbrev pub promise_all : {W A B : Type 0} → (A → Async W B) → List A → Async W (List B)
promise_all f [] w = (ok [], w)
promise_all f (x ∷ xs) w =
    let (r, w') = f x w in
    let (rs, w'') = promise_all f xs w' in (settle (λ y ys. y ∷ ys) r rs, w'')

-- The result of a throwing function without state.
infixl 5 ◌>>?◌
abbrev pub ◌>>?◌ : {A B : Type 0} → Result A → (A → Result B) → Result B
ok a >>? f = f a
err e >>? f = err e
hang >>? f = hang

pub Result-cases : {A : Type 0} (r : Result A) → ((a : A) × (r ≡ ok a)) ⊎ ((a : A) → r ≢ ok a)
Result-cases (ok a) = inl (a, refl)
Result-cases (err e) = inr (λ a. cc)
Result-cases hang = inr (λ a. cc)

-- `xs.map(f)`, where `f` may throw
abbrev pub map_result : {A B : Type 0} → (A → Result B) → List A → Result (List B)
map_result f [] = ok []
map_result f (x ∷ xs) = f x >>? λ y. map_result f xs >>? λ ys. ok (y ∷ ys)

pub Result-split :
    {A : Type 0} (r : Result A) → ((a : A) × (r ≡ ok a)) ⊎ ((e : Error) × (r ≡ err e)) ⊎ (r ≡ hang)
Result-split (ok a) = inl (a, refl)
Result-split (err e) = inr (inl (e, refl))
Result-split hang = inr (inr refl)

-- A sequence that returns: its first part returned, and then its second.
pub bind-ok :
    {W A B : Type 0} (m : Async W A) (f : A → Async W B) (w : W) {b : B}
    → ((m >>= f) w).0 ≡ ok b
    → (a : A) × ((m w).0 ≡ ok a) × ((f a (m w).1).0 ≡ ok b)
bind-ok m f w h = elim (Result-split (m w).0) [
  | inl (a, e) ↦ (a, e, ground arith)
  | inr (inl (x, e)) ↦ absurd (ground arith)
  | inr (inr e) ↦ absurd (ground arith)
]

-- A `try` whose handler throws again returns only what its body returned.
pub rethrow-ok :
    {W A : Type 0} (m : Async W A) (handler : Error → Async W (Unit {0})) (g : Error → Error)
    (w : W) {a : A}
    → (try_catch m (λ e. handler e >> throw (g e)) w).0 ≡ ok a
    → (m w).0 ≡ ok a
rethrow-ok m handler g w h = elim (Result-split (m w).0) [
  | inl (b, e) ↦ ground arith
  | inr (inl (x, e)) ↦ absurd (ground arith)
  | inr (inr e) ↦ absurd (ground arith)
]

-- A test that throws: it passed, and changed nothing.
pub throw_if-ok :
    {W : Type 0} (c : Bool) (e : Error) (w : W) → (throw_if c e w).0 ≡ ok tt → c ≡ false
throw_if-ok true e w h = cc
throw_if-ok false e w h = refl

-- A test that throws, and then the rest: the test passed, and the rest returned.
pub throw_if-bind-ok :
    {W B : Type 0} (c : Bool) (e : Error) (k : Async W B) (w : W) {b : B}
    → ((throw_if c e >> k) w).0 ≡ ok b
    → (c ≡ false) × ((k w).0 ≡ ok b)
throw_if-bind-ok true e k w h = cc
throw_if-bind-ok false e k w h = (refl, h)

pub ok_injective : {A : Type 0} {a b : A} → ok a ≡ ok b → a ≡ b
ok_injective h = cc

settle-ok :
    {A B C : Type 0} (f : A → B → C) (r : Result A) (q : Result B) {c : C}
    → settle f r q ≡ ok c
    → (a : A) × (b : B) × (r ≡ ok a) × (q ≡ ok b) × (f a b ≡ c)
settle-ok f (ok a) (ok b) h = (a, b, refl, refl, ok_injective h)
settle-ok f (ok a) (err e) h = cc
settle-ok f (ok a) hang h = cc
settle-ok f (err e) q h = cc
settle-ok f hang q h = cc

pub both-ok_parts :
    {W A B : Type 0} (m : Async W A) (n : Async W B) (w : W) {c : A × B}
    → (both m n w).0 ≡ ok c
    → ((m w).0 ≡ ok c.0) × ((n (m w).1).0 ≡ ok c.1)
both-ok_parts m n w h =
    let (a, b, e, f, same) = settle-ok (λ a b. (a, b)) (m w).0 (n (m w).1).0 h in
    (e ∙ ap (λ p. ok p.0) same, f ∙ ap (λ p. ok p.1) same)

-- A `Promise.all` that returns: each of its calls returned.
pub promise_all-ok :
    {W A B : Type 0} (f : A → Async W B) (x : A) (xs : List A) (w : W) {zs : List B}
    → (promise_all f (x ∷ xs) w).0 ≡ ok zs
    → (y : B) × (ys : List B) × ((f x w).0 ≡ ok y)
      × ((promise_all f xs (f x w).1).0 ≡ ok ys)
      × (y ∷ ys ≡ zs)
promise_all-ok f x xs w h = settle-ok (λ y ys. y ∷ ys) (f x w).0 (promise_all f xs (f x w).1).0 h

-- A sequence of throwing functions that returns: its first part returned, and then its second.
pub then-ok :
    {A B : Type 0} (r : Result A) (f : A → Result B) {b : B}
    → (r >>? f) ≡ ok b
    → (a : A) × (r ≡ ok a) × (f a ≡ ok b)
then-ok (ok a) f h = (a, refl, h)
then-ok (err e) f h = cc
then-ok hang f h = cc
