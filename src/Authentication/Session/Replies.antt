-- ===== src/Authentication/Session/Replies.antt =====
-- How often the handlers answer.
use mathlib.Core.Bool.{false≢true}
use research_service_workben.Base.{
  ℕ, String, Bool, true, false, Option, none, some, List, [], ◌≡◌, refl, inl, inr, Result, ok, err,
  hang, arith, Result-split, Bool-cases, Option-cases, Dict, length, keep, lift, ◌>>=◌, Async,
  Error, pure, try_catch, run_catch, if◌then◌else◌, ◌==◌,
}
use research_service_workben.Authentication.Session.{
  AuthenticationPlugin, SameSite, Request, Event, next, reply, World, Handler, verify_token,
  get_tokens_from_authorization_code, get_authorization_code_url, logout_user, refresh_access_token,
  is_user_logged_in, exchange_texts, logout_from, revoke_both, revocations, revocation_failed,
  is_idp_unavailable, clear_and_reply, get_request_origin,
}

abbrev is_answer : Event → Bool
is_answer (reply s b) = true
is_answer next = true
is_answer _ = false

abbrev answers : List Event → ℕ
answers es = length (keep is_answer es)

-- The handlers and their options.
pub data Endpoint : Type 0 where
  token : Option SameSite → Endpoint
  login : Option Bool → Endpoint
  verified : Option (Dict (Dict Bool)) → Endpoint
  logout : Option SameSite → Endpoint
  refreshed : Option SameSite → Endpoint
  logged_in_state : Option SameSite → Option Bool → Endpoint

module _ {W D : Type 0} (p : AuthenticationPlugin W D) where
  unfoldable pub handle : Endpoint → Request → Handler W
  handle (token site) req = get_tokens_from_authorization_code p site req
  handle (login csrf) req = get_authorization_code_url p csrf req
  handle (verified ignored) req = verify_token p ignored req
  handle (logout site) req = logout_user p site req
  handle (refreshed site) req = refresh_access_token p site req
  handle (logged_in_state site csrf) req = is_user_logged_in p site csrf req

  abbrev pub Once : Result (Unit {0}) × World W → Type 0
  Once (ok u, (w, es)) = answers es ≡ 1
  Once (err e, (w, es)) = answers es ≡ 0
  Once (hang, (w, es)) = answers es ≡ 0

  exchange-Once :
      (site : Option SameSite) (code verifier url : Option String) (w : W)
      → Once (exchange_texts p site code verifier url (w, []))
  exchange-Once site none verifier url w = refl
  exchange-Once site (some code) none url w = refl
  exchange-Once site (some code) (some verifier) none w = refl
  exchange-Once site (some code) (some verifier) (some url) w =
      elim (Result-split (p.handle_authorization_code code verifier url w).0) [
        | inl (ts, e) ↦ elim (Option-cases ts.refresh_token) [
          | inl f ↦ ground arith
          | inr (t, f) ↦ ground arith
        ]
        | inr failed ↦ ground arith
      ]

  -- What the revocations leave: nothing yet, or the answer 503.
  abbrev Revoked : Result Bool × World W → Type 0
  Revoked (ok true, (w, es)) = es ≡ []
  Revoked (ok false, (w, es)) = answers es ≡ 1
  Revoked (err e, (w, es)) = answers es ≡ 0
  Revoked (hang, (w, es)) = answers es ≡ 0

  failed-Revoked :
      (x : Error) (w : W) (es : List Event) → es ≡ [] → Revoked (revocation_failed x (w, es))
  failed-Revoked x w es k = elim (Bool-cases (is_idp_unavailable x)) [
    | inl e ↦ rw (e, k) refl
    | inr e ↦ rw (e, k) refl
  ]

  caught-Revoked :
      (m : Async (World W) Bool) (w : W)
      → ((b : Bool) → (m (w, [])).0 ≡ ok b → b ≡ true)
      → (m (w, [])).1.1 ≡ []
      → Revoked (try_catch m revocation_failed (w, []))
  caught-Revoked m w h k = go (m (w, [])) h k
    where
      go :
          (r : Result Bool × World W)
          → ((b : Bool) → r.0 ≡ ok b → b ≡ true)
          → r.1.1 ≡ []
          → Revoked (run_catch revocation_failed r)
      go (ok true, (w, es)) h k = k
      go (ok false, (w, es)) h k = absurd (false≢true (h false refl))
      go (err x, (w, es)) h k = failed-Revoked x w es k
      go (hang, (w, es)) h k = rw k refl

  revoke_both-Revoked : (req : Request) (w : W) → Revoked (revoke_both p req (w, []))
  revoke_both-Revoked req w =
      caught-Revoked (revocations p req) w (λ b e. ground arith) (ground arith)

  finish-Once :
      (site : Option SameSite) (url : String) (go_on : Bool) (w : W) (es : List Event)
      → Revoked (ok go_on, (w, es))
      → Once ((if go_on then clear_and_reply p site url else pure tt) (w, es))
  finish-Once site url true w es h = ground (arith, h)
  finish-Once site url false w es h = h

  logout-Once :
      (site : Option SameSite) (req : Request) (url : Option String) (w : W)
      → Once (logout_from p site req url (w, []))
  logout-Once site req none w = refl
  logout-Once site req (some url) w = elim (Bool-cases (url == "")) [
    | inl e ↦ ground arith
    | inr e ↦ rw e (go (revoke_both p req (w, [])) (revoke_both-Revoked req w))
  ]
    where
      go :
          (r : Result Bool × World W)
          → Revoked r
          → Once (elim r.0 [
            | ok b ↦ (if b then clear_and_reply p site url else pure tt) r.1
            | err e ↦ (err e, r.1)
            | hang ↦ (hang, r.1)
          ])
      go (ok b, (w, es)) h = finish-Once site url b w es h
      go (err e, (w, es)) h = h
      go (hang, (w, es)) h = h

  session-Once :
      (site : Option SameSite) (csrf : Option Bool) (req : Request) (w : W)
      → Once (is_user_logged_in p site csrf req (w, []))
  unfolding is_user_logged_in
  session-Once site csrf req w = elim (Option-cases req.refresh_token) [
    | inl none_left ↦ elim (Option-cases req.access_token) [
      | inl f ↦ ground arith
      | inr (t, f) ↦ ground arith
    ]
    | inr (t, e) ↦ ground arith
  ]

  with_origin-Once :
      (r : Result (Option String)) (f : Option String → Handler W) (w : W)
      → ((url : Option String) → Once (f url (w, [])))
      → Once ((lift r >>= f) (w, []))
  with_origin-Once (ok url) f w h = h url
  with_origin-Once (err e) f w h = refl
  with_origin-Once hang f w h = refl

  -- Every handler answers a request once where it returns, and not at all where it rejects.
  pub handle-Once : (h : Endpoint) (req : Request) (w : W) → Once (handle h req (w, []))
  unfolding handle verify_token get_tokens_from_authorization_code get_authorization_code_url
      logout_user refresh_access_token is_user_logged_in
  handle-Once (token site) req w =
      with_origin-Once (get_request_origin req) (exchange_texts p site req.code req.code_verifier) w
        (λ url. exchange-Once site req.code req.code_verifier url w)
  handle-Once (login csrf) req w = ground arith
  handle-Once (verified ignored) req w = ground arith
  handle-Once (logout site) req w =
      with_origin-Once (get_request_origin req) (logout_from p site req) w
        (λ url. logout-Once site req url w)
  handle-Once (refreshed site) req w = ground arith
  handle-Once (logged_in_state site csrf) req w = session-Once site csrf req w
