-- ===== src/Authentication/Tests.antt =====
-- Runs of the authentication on small inputs.
use research_service_workben.Base.{
  String, Bool, true, false, Option, none, some, any, [], ◌∷◌, ◌≡◌, refl, ◌↔◌, ◌⊎◌, if◌then◌else◌,
  ok, err, Error, pure, throw, ◌==◌, Dict,
}
use research_service_workben.Authorization.Models.{AuthenticatedUser}
use research_service_workben.Authentication.Session.{
  AuthenticationPlugin, Request, Tokens, user_set, next, verify_token, is_ignored,
}
use research_service_workben.Authentication.Session.Access.{
  IsVerified, is_next, events, verify_token-user_iff, verify_token-next,
}
use research_service_workben.Authentication.Session.Replies.{Once, handle, handle-Once, refreshed}

abbrev tokens : Tokens
tokens = record {
  id_token = record { token = "id"; expires_in = some 900 };
  access_token = record { token = "access"; expires_in = some 900 };
  refresh_token = none;
}

-- A provider that knows the token `access`, and is away when a token is to be revoked.
abbrev provider : AuthenticationPlugin (Unit {0}) String
provider = record {
  is_user_logged_in = λ t. pure true;
  validate_token =
      λ t w. (if t == "access" then ok "alice" else err (Error.other "InvalidJWTError"), w);
  revoke_token = λ t. throw Error.idp_unavailable;
  revoke_access_token = λ t. throw Error.idp_unavailable;
  get_user_id_from_token = λ d. ok d;
  get_user_roles_from_token = λ d. ok ("researchers" ∷ []);
  handle_authorization_code = λ code verifier url. pure tokens;
  get_authorization_code_url = λ state challenge url. ok url;
  refresh_access_token = λ t. pure tokens;
  get_logout_url = λ url. ok url;
}

abbrev alice : AuthenticatedUser
alice = record { id = "alice"; roles = "researchers" ∷ [] }

abbrev request : Request
request = record {
  path = "/runs";
  method = "GET";
  origin = some "https://swb";
  referer = none;
  access_token = some "access";
  refresh_token = some "refresh";
  code = none;
  code_verifier = none;
  state_verifier = none;
  code_challenge = none;
  csrf = ok "csrf";
  url_origin = λ s. ok s;
}

abbrev login_ignored : Option (Dict (Dict Bool))
login_ignored = some (("/login", ("GET", true) ∷ []) ∷ [])

secured : is_ignored login_ignored request ≡ false
unfolding is_ignored
secured = refl

passed : any is_next (events provider login_ignored request tt) ≡ true
unfolding verify_token is_ignored
passed = refl

verify_token-user_iff_example :
    (events provider login_ignored request tt ≡ user_set alice ∷ next ∷ [])
    ↔ IsVerified provider request alice tt
verify_token-user_iff_example =
    verify_token-user_iff provider login_ignored request alice tt secured

verify_token-next_example :
    ((is_ignored login_ignored request ≡ true)
      × (events provider login_ignored request tt ≡ next ∷ []))
    ⊎ ((u : AuthenticatedUser) × (events provider login_ignored request tt ≡ user_set u ∷ next ∷ [])
        × IsVerified provider request u tt)
verify_token-next_example = verify_token-next provider login_ignored request tt passed

handle-Once_example : Once provider (handle provider (refreshed none) request (tt, []))
handle-Once_example = handle-Once provider (refreshed none) request tt
