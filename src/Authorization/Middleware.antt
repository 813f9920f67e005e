-- ===== src/Authorization/Middleware.antt =====
-- workbench-core/authorization/src/dynamicAuthorization/dynamicAuthorizationMiddleware.ts. The rate
-- limiter of rate-limiter-flexible is the parameter `consume`. Log output is left out.
pub mod Admission
use research_service_workben.Base.{
  ℕ, String, Bool, true, false, not, ◌&&◌, Option, none, some, List, [], ◌∷◌, if◌then◌else◌, Result,
  ok, err, Error, Async, pure, throw_if, lift, try_catch, ◌>>=◌, ◌>>◌, ◌==◌, ltb, length, all,
  units,
}
use research_service_workben.Authorization.Models.{AuthenticatedUser}
use research_service_workben.Authorization.Static.{Handled, next, status, check_method}
use research_service_workben.Authorization.Service.{Plugins}
use research_service_workben.Authorization.Dynamic.{is_authorized_on_route}

-- `AuthenticatedUserParser`, on the user that authentication left in `res.locals`
unfoldable pub is_valid_user : AuthenticatedUser → Bool
is_valid_user u =
    not (u.id == "") && all (λ r. not (r == "") && not (ltb 55 (length (units r)))) u.roles

abbrev pub valid_or_throw : Bool → AuthenticatedUser → Result AuthenticatedUser
valid_or_throw true u = ok u
valid_or_throw false u = err (Error.other "ZodError")

abbrev pub parse_user : Option AuthenticatedUser → Result AuthenticatedUser
parse_user none = err (Error.other "ZodError")
parse_user (some u) = valid_or_throw (is_valid_user u) u

module _ {W : Type 0} (s : Plugins W) (consume : String → Async W (Unit {0})) where
  unfoldable pub check_user : ℕ → (route method : String) → AuthenticatedUser → Async W Handled
  check_user fuel route method u = do is_authorized_on_route s fuel u route method []; pure next

  unfoldable pub pass_or_check :
      ℕ → Option AuthenticatedUser → (route method : String) → Bool → Async W Handled
  pass_or_check fuel user route method true = pure next
  pass_or_check fuel user route method false = do
    u ← lift (parse_user user)
    check_user fuel route method u

  -- The second `try`.
  unfoldable pub admit : ℕ → Option AuthenticatedUser → (route method : String) → Async W Handled
  admit fuel user route method = do
    throw_if (not (check_method method)) (Error.other "ZodError")
    ignored ← s.permissions.is_route_ignored route method
    pass_or_check fuel user route method ignored

  unfoldable pub answer_within :
      ℕ → Option AuthenticatedUser → (route method : String) → Bool → Async W Handled
  answer_within fuel user route method true =
      try_catch (admit fuel user route method) (λ e. pure (status 403))
  answer_within fuel user route method false = pure (status 429)

  unfoldable pub with_dynamic_auth :
      ℕ → (ip : String) → Option AuthenticatedUser → (route method : String) → Async W Handled
  with_dynamic_auth fuel ip user route method = do
    within ← try_catch (consume ip >> pure true) (λ e. pure false)
    answer_within fuel user route method within
