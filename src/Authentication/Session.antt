-- ===== src/Authentication/Session.antt =====
-- workbench-core/authentication/src/authenticationMiddleware.ts and authenticationService.ts, which
-- passes each call on to the plugin of the identity provider, a parameter. The logger's entries are
-- left out, and the cookies' constant options (httpOnly, secure) are not written out.
pub mod Access
pub mod Replies
use research_service_workben.Base.{
  ℕ, String, Bool, true, false, Option, none, some, List, [], ◌∷◌, ◌++◌, if◌then◌else◌, Result, ok,
  err, hang, Error, Async, pure, throw, lift, try_catch, ◌>>=◌, ◌>>◌, ◌==◌, Dict, lookup, ◌&&◌,
  is_some,
}
use research_service_workben.Authorization.Models.{AuthenticatedUser}

pub data SameSite : Type 0 where
  none_site lax strict : SameSite

pub record Token : Type 0 where
  pub token : String
  pub expires_in : Option ℕ

pub record Tokens : Type 0 where
  pub id_token : Token
  pub access_token : Token
  pub refresh_token : Option Token

-- The plugin; what its methods do not await, they may still throw.
pub record AuthenticationPlugin (W D : Type 0) : Type 0 where
  pub is_user_logged_in : String → Async W Bool
  pub validate_token : String → Async W D
  pub revoke_token : String → Async W (Unit {0})
  pub revoke_access_token : String → Async W (Unit {0})
  pub get_user_id_from_token : D → Result String
  pub get_user_roles_from_token : D → Result (List String)
  pub handle_authorization_code : (code verifier website_url : String) → Async W Tokens
  pub get_authorization_code_url : (state challenge website_url : String) → Result String
  pub refresh_access_token : String → Async W Tokens
  pub get_logout_url : String → Result String

-- What a request holds; a value that is not a text is `none`. `csrf` is what `csrfToken()` gives or
-- throws, and `url_origin` the origin that `new URL` reads off a text, or throws.
pub record Request : Type 0 where
  pub path : String
  pub method : String
  pub origin : Option String
  pub referer : Option String
  pub access_token : Option String
  pub refresh_token : Option String
  pub code : Option String
  pub code_verifier : Option String
  pub state_verifier : Option String
  pub code_challenge : Option String
  pub csrf : Result String
  pub url_origin : String → Result String

pub data Body : Type 0 where
  empty : Body
  id_token_body : String → Body
  sign_in : (url : String) (csrf : Option String) → Body
  logged_in : (id_token : Option String) (logged_in : Bool) (csrf : Option String) → Body
  logout_url : String → Body

-- What a handler does to the response, or with it.
pub data Event : Type 0 where
  cookie : (name value : String) (site : SameSite) (max_age : Option ℕ) → Event
  clear_cookie : (name : String) (site : SameSite) → Event
  user_set : AuthenticatedUser → Event
  reply : ℕ → Body → Event
  next : Event

-- The provider's world, and what was done to the response so far.
abbrev pub World : Type 0 → Type 0
World W = W × List Event

abbrev pub Handler : Type 0 → Type 0
Handler W = Async (World W) (Unit {0})

abbrev pub emit : {W : Type 0} → Event → Handler W
emit e (w, es) = (ok tt, (w, es ++ (e ∷ [])))

abbrev pub call : {W A : Type 0} → Async W A → Async (World W) A
call m (w, es) = let (r, w') = m w in (r, (w', es))

-- The cookies' `sameSite`, where no option sets it.
abbrev or_strict : Option SameSite → SameSite
or_strict none = strict
or_strict (some s) = s

abbrev default_true : Option Bool → Bool
default_true none = true
default_true (some b) = b

-- `new URL(referer).origin`, for a referer that is there and not empty
abbrev referer_origin : (String → Result String) → Option String → Result (Option String)
referer_origin url_origin none = ok none
referer_origin url_origin (some r) =
    if r == ""
    then ok none
    else elim (url_origin r) [ ok o ↦ ok (some o) | err e ↦ err e | hang ↦ hang ]

abbrev origin_of : (String → Result String) → Option String → Option String → Result (Option String)
origin_of url_origin (some o) referer = ok (some o)
origin_of url_origin none referer = referer_origin url_origin referer

unfoldable pub get_request_origin : Request → Result (Option String)
get_request_origin req = origin_of req.url_origin req.origin req.referer

-- `isIdpUnavailableError`
abbrev pub is_idp_unavailable : Error → Bool
is_idp_unavailable Error.idp_unavailable = true
is_idp_unavailable e = false

abbrev failure_status : ℕ → Error → ℕ
failure_status other e = if is_idp_unavailable e then 503 else other

-- `include ? req.csrfToken() : undefined`
abbrev csrf_token : Bool → Request → Result (Option String)
csrf_token true req = elim req.csrf [ ok t ↦ ok (some t) | err e ↦ err e | hang ↦ hang ]
csrf_token false req = ok none

abbrev set_access : {W : Type 0} → Option SameSite → Tokens → Handler W
set_access site ts =
    emit (cookie "access_token" ts.access_token.token (or_strict site) ts.access_token.expires_in)

abbrev set_refresh : {W : Type 0} → Option SameSite → Option Token → Handler W
set_refresh site none = pure tt
set_refresh site (some t) = emit (cookie "refresh_token" t.token (or_strict site) t.expires_in)

-- `if (typeof token === 'string') await f(token)`
abbrev when_text : {W : Type 0} → Option String → (String → Async W (Unit {0})) → Handler W
when_text none f = pure tt
when_text (some t) f = call (f t)

abbrev ignored_method : Option (Dict Bool) → String → Bool
ignored_method none m = false
ignored_method (some d) m = elim (lookup m d) [ none ↦ false | some b ↦ b ]

-- `has(ignoredRoutes, path) && get(get(ignoredRoutes, path), method)`
unfoldable pub is_ignored : Option (Dict (Dict Bool)) → Request → Bool
is_ignored none req = false
is_ignored (some routes) req = ignored_method (lookup req.path routes) req.method

-- The `catch` of `logoutUser`: a provider that is away answers 503, any other error is passed over.
abbrev pub revocation_failed : {W : Type 0} → Error → Async (World W) Bool
revocation_failed e =
    if is_idp_unavailable e then emit (reply 503 empty) >> pure false else pure true

module _ {W D : Type 0} (p : AuthenticationPlugin W D) where
  abbrev pub exchange : Option SameSite → (code verifier url : String) → Handler W
  exchange site code verifier url =
      try_catch
        (do
          ts ← call (p.handle_authorization_code code verifier url)
          set_access site ts
          set_refresh site ts.refresh_token
          emit (reply 200 (id_token_body ts.id_token.token)))
        (λ e. emit (reply (failure_status 401 e) empty))

  abbrev pub exchange_texts :
      Option SameSite → Option String → Option String → Option String → Handler W
  exchange_texts site (some code) (some verifier) (some url) = exchange site code verifier url
  exchange_texts site (some code) (some verifier) none = emit (reply 400 empty)
  exchange_texts site (some code) none url = emit (reply 400 empty)
  exchange_texts site none verifier url = emit (reply 400 empty)

  unfoldable pub get_tokens_from_authorization_code : Option SameSite → Request → Handler W
  get_tokens_from_authorization_code site req = do
    url ← lift (get_request_origin req)
    exchange_texts site req.code req.code_verifier url

  abbrev pub sign_in_texts :
      Bool → Request → Option String → Option String → Option String → Handler W
  sign_in_texts include_csrf req (some state) (some challenge) (some url) = do
    sign_in_url ← lift (p.get_authorization_code_url state challenge url)
    token ← lift (csrf_token include_csrf req)
    emit (reply 200 (sign_in sign_in_url token))
  sign_in_texts include_csrf req (some state) (some challenge) none = emit (reply 400 empty)
  sign_in_texts include_csrf req (some state) none url = emit (reply 400 empty)
  sign_in_texts include_csrf req none challenge url = emit (reply 400 empty)

  unfoldable pub get_authorization_code_url : Option Bool → Request → Handler W
  get_authorization_code_url csrf req = do
    url ← lift (get_request_origin req)
    sign_in_texts (default_true csrf) req req.state_verifier req.code_challenge url

  abbrev pub authenticate : Option String → Handler W
  authenticate none = emit (reply 401 empty)
  authenticate (some token) =
      try_catch
        (do
          decoded ← call (p.validate_token token)
          id ← lift (p.get_user_id_from_token decoded)
          roles ← lift (p.get_user_roles_from_token decoded)
          emit (user_set (record { id = id; roles = roles }))
          emit next)
        (λ e. emit (reply 401 empty))

  unfoldable pub verify_token : Option (Dict (Dict Bool)) → Request → Handler W
  verify_token ignored_routes req =
      if is_ignored ignored_routes req then emit next else authenticate req.access_token

  abbrev pub clear_and_reply : Option SameSite → String → Handler W
  clear_and_reply site url = do
    emit (clear_cookie "access_token" (or_strict site))
    emit (clear_cookie "refresh_token" (or_strict site))
    logout ← lift (p.get_logout_url url)
    emit (reply 200 (logout_url logout))

  abbrev pub revocations : Request → Async (World W) Bool
  revocations req = do
    when_text req.refresh_token p.revoke_token
    when_text req.access_token p.revoke_access_token
    pure true

  -- Whether the handler goes on after the `try`.
  abbrev pub revoke_both : Request → Async (World W) Bool
  revoke_both req = try_catch (revocations req) revocation_failed

  abbrev pub logout_from : Option SameSite → Request → Option String → Handler W
  logout_from site req none = emit (reply 400 empty)
  logout_from site req (some url) =
      if url == ""
      then emit (reply 400 empty)
      else do go_on ← revoke_both req; if go_on then clear_and_reply site url else pure tt

  unfoldable pub logout_user : Option SameSite → Request → Handler W
  logout_user site req = do url ← lift (get_request_origin req); logout_from site req url

  abbrev pub refresh : Option SameSite → Request → Option String → Handler W
  refresh site req none = emit (reply 401 empty)
  refresh site req (some token) =
      try_catch
        (do
          ts ← call (p.refresh_access_token token)
          when_text req.access_token p.revoke_access_token
          set_access site ts
          emit (reply 200 (id_token_body ts.id_token.token)))
        (λ e. emit (reply (failure_status 401 e) empty))

  unfoldable pub refresh_access_token : Option SameSite → Request → Handler W
  refresh_access_token site req = refresh site req req.refresh_token

  abbrev pub session : Option SameSite → Bool → Request → Option String → Option String → Handler W
  session site include_csrf req (some token) access = do
    ts ← call (p.refresh_access_token token)
    set_access site ts
    csrf ← lift (csrf_token include_csrf req)
    emit (reply 200 (logged_in (some ts.id_token.token) true csrf))
  session site include_csrf req none (some token) = do
    here ← call (p.is_user_logged_in token)
    csrf ← lift (csrf_token (include_csrf && here) req)
    emit (reply 200 (logged_in none here csrf))
  session site include_csrf req none none = emit (reply 200 (logged_in none false none))

  abbrev pub session_failed : Error → Handler W
  session_failed e =
      if is_idp_unavailable e
      then emit (reply 503 empty)
      else emit (reply 200 (logged_in none false none))

  unfoldable pub is_user_logged_in : Option SameSite → Option Bool → Request → Handler W
  is_user_logged_in site csrf req =
      try_catch (session site (default_true csrf) req req.refresh_token req.access_token)
        session_failed
