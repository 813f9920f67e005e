-- ===== src/Authorization/Middleware/Admission.antt =====
-- Which requests the dynamic authorization lets through.
use research_service_workben.Base.{
  ℕ, String, Bool, true, false, not, Option, none, some, [], ◌≡◌, refl, sym, ap, ◌∙◌, ◌⊎◌, inl, inr,
  ok, Error, Async, arith, Result-split, bind-ok, throw_if, throw_if-ok, try_catch, lift, pure,
  ◌>>=◌, ◌>>◌,
}
use research_service_workben.Authorization.Models.{AuthenticatedUser}
use research_service_workben.Authorization.Static.{next, check_method}
use research_service_workben.Authorization.Service.{Plugins}
use research_service_workben.Authorization.Dynamic.{is_authorized_on_route}
use research_service_workben.Authorization.Dynamic.Access.{
  IsCleared, is_authorized_on_route-IsCleared,
}
use research_service_workben.Authorization.Middleware.{
  is_valid_user, valid_or_throw, parse_user, check_user, pass_or_check, admit, answer_within,
  with_dynamic_auth,
}

parse_user-ok :
    (o : Option AuthenticatedUser) (u : AuthenticatedUser)
    → parse_user o ≡ ok u
    → (o ≡ some u) × (is_valid_user u ≡ true)
parse_user-ok none u h = cc
parse_user-ok (some v) u h = go (is_valid_user v) refl h
  where
    go :
        (b : Bool)
        → is_valid_user v ≡ b
        → valid_or_throw b v ≡ ok u
        → (some v ≡ some u) × (is_valid_user u ≡ true)
    go true e k = let same : v ≡ u = cc in (ap some same, ap is_valid_user (sym same) ∙ e)
    go false e k = cc

module _ {W : Type 0} (s : Plugins W) (consume : String → Async W (Unit {0})) (fuel : ℕ)
    (user : Option AuthenticatedUser) (route method : String) where
  -- The route was ignored, or the user is there, well formed, and cleared for the route.
  abbrev pub IsAdmitted : Type 0
  IsAdmitted =
      ((w : W) × ((s.permissions.is_route_ignored route method w).0 ≡ ok true))
      ⊎ ((u : AuthenticatedUser) × (user ≡ some u)
          × (is_valid_user u ≡ true)
          × IsCleared s fuel u route method [])

  check_user-IsAdmitted :
      (u : AuthenticatedUser) (w : W)
      → user ≡ some u
      → is_valid_user u ≡ true
      → (check_user s consume fuel route method u w).0 ≡ ok next
      → IsAdmitted
  unfolding check_user
  check_user-IsAdmitted u w here valid h =
      let (done, cleared, rest) =
        bind-ok (is_authorized_on_route s fuel u route method []) (λ _. pure next) w h in
      elim (is_authorized_on_route-IsCleared s fuel u route method [] w cleared) [
        | inl ignored ↦ inl (w, ignored)
        | inr c ↦ inr (u, here, valid, c)
      ]

  pass_or_check-IsAdmitted :
      (b : Bool) (w : W)
      → (s.permissions.is_route_ignored route method w).0 ≡ ok b
      → (w' : W) → (pass_or_check s consume fuel user route method b w').0 ≡ ok next
      → IsAdmitted
  unfolding pass_or_check
  pass_or_check-IsAdmitted true w asked w' h = inl (w, asked)
  pass_or_check-IsAdmitted false w asked w' h =
      let (u, parsed, rest) =
        bind-ok (lift (parse_user user)) (check_user s consume fuel route method) w' h in
      let (here, valid) = parse_user-ok user u parsed in check_user-IsAdmitted u w' here valid rest

  admit-IsAdmitted :
      (w : W)
      → (admit s consume fuel user route method w).0 ≡ ok next
      → (check_method method ≡ true) × IsAdmitted
  unfolding admit
  admit-IsAdmitted w h =
      let ask = s.permissions.is_route_ignored route method in
      let (done, known, rest) =
        bind-ok (throw_if (not (check_method method)) (Error.other "ZodError"))
          (λ _. ask >>= pass_or_check s consume fuel user route method) w h in
      let (b, asked, more) = bind-ok ask (pass_or_check s consume fuel user route method) w rest in
      let valid = throw_if-ok (not (check_method method)) (Error.other "ZodError") w known in
      (
        ground (arith, valid),
        pass_or_check-IsAdmitted b w asked (s.permissions.is_route_ignored route method w).1 more,
      )

  answer_within-IsAdmitted :
      (within : Bool) (w : W)
      → (answer_within s consume fuel user route method within w).0 ≡ ok next
      → (check_method method ≡ true) × IsAdmitted
  unfolding answer_within
  answer_within-IsAdmitted false w h = absurd (ground arith)
  answer_within-IsAdmitted true w h =
      elim (Result-split (admit s consume fuel user route method w).0) [
        | inl (answer, e) ↦ admit-IsAdmitted w (ground arith)
        | inr (inl (x, e)) ↦ absurd (ground arith)
        | inr (inr e) ↦ absurd (ground arith)
      ]

  -- The middleware passes a request on only if its method is an HTTP method, and its route is
  -- ignored or the user that authentication left is well formed and cleared for the route.
  pub with_dynamic_auth-IsAdmitted :
      (ip : String) (w : W)
      → (with_dynamic_auth s consume fuel ip user route method w).0 ≡ ok next
      → (check_method method ≡ true) × IsAdmitted
  unfolding with_dynamic_auth
  with_dynamic_auth-IsAdmitted ip w h =
      let limit = try_catch (consume ip >> pure true) (λ e. pure false) in
      let (within, counted, rest) =
        bind-ok limit (answer_within s consume fuel user route method) w h in
      answer_within-IsAdmitted within (limit w).1 rest
