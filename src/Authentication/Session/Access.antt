-- ===== src/Authentication/Session/Access.antt =====
-- Which requests authentication passes on, and as whom.
use research_service_workben.Base.{
  String, Bool, true, false, Option, some, List, [], ◌∷◌, ◌≡◌, ◌↔◌, ◌⊎◌, inl, inr, ok, arith,
  Result-split, Bool-cases, Option-cases, Dict, any,
}
use research_service_workben.Authorization.Models.{AuthenticatedUser}
use research_service_workben.Authentication.Session.{
  AuthenticationPlugin, Request, Event, user_set, next, verify_token, is_ignored,
}

module _ {W D : Type 0} (p : AuthenticationPlugin W D) where
  -- The provider accepts the cookie's token and reads the user off it.
  pub record IsVerified (req : Request) (u : AuthenticatedUser) (w : W) : Type 0 where
    pub token : String
    pub decoded : D
    pub has_token : req.access_token ≡ some token
    pub valid : (p.validate_token token w).0 ≡ ok decoded
    pub id : p.get_user_id_from_token decoded ≡ ok u.id
    pub roles : p.get_user_roles_from_token decoded ≡ ok u.roles

  abbrev pub events : Option (Dict (Dict Bool)) → Request → W → List Event
  events ignored req w = (verify_token p ignored req (w, [])).1.1

  -- A request whose route is not ignored is passed on as the user `u` exactly when the provider
  -- accepts the token of its cookie and reads `u` off it.
  pub verify_token-user_iff :
      (ignored : Option (Dict (Dict Bool))) (req : Request) (u : AuthenticatedUser) (w : W)
      → is_ignored ignored req ≡ false
      → (events ignored req w ≡ user_set u ∷ next ∷ []) ↔ IsVerified req u w
  unfolding verify_token
  verify_token-user_iff ignored req u w secured = (to, back)
    where
      to : events ignored req w ≡ user_set u ∷ next ∷ [] → IsVerified req u w
      to h = elim (Option-cases req.access_token) [
        | inl e ↦ absurd (ground arith)
        | inr (token, e) ↦ elim (Result-split (p.validate_token token w).0) [
          | inl (d, v) ↦ elim (Result-split (p.get_user_id_from_token d)) [
            | inl (i, vi) ↦ elim (Result-split (p.get_user_roles_from_token d)) [
              | inl (rs, vr) ↦ record {
                token = token;
                decoded = d;
                has_token = e;
                valid = v;
                id = ground arith;
                roles = ground arith;
              }
              | inr (inl (x, vr)) ↦ absurd (ground arith)
              | inr (inr vr) ↦ absurd (ground arith)
            ]
            | inr (inl (x, vi)) ↦ absurd (ground arith)
            | inr (inr vi) ↦ absurd (ground arith)
          ]
          | inr (inl (x, v)) ↦ absurd (ground arith)
          | inr (inr v) ↦ absurd (ground arith)
        ]
      ]

      back : IsVerified req u w → events ignored req w ≡ user_set u ∷ next ∷ []
      back k = ground (arith, k.has_token, k.valid, k.id, k.roles)

abbrev pub is_next : Event → Bool
is_next next = true
is_next _ = false

module _ {W D : Type 0} (p : AuthenticationPlugin W D) where
  -- A request that is passed on is passed on without a user where its route is ignored; elsewhere a user
  -- was set first, and it is that user whom the provider verified from the token of the cookie.
  pub verify_token-next :
      (ignored : Option (Dict (Dict Bool))) (req : Request) (w : W)
      → any is_next (events p ignored req w) ≡ true
      → ((is_ignored ignored req ≡ true) × (events p ignored req w ≡ next ∷ []))
        ⊎ ((u : AuthenticatedUser) × (events p ignored req w ≡ user_set u ∷ next ∷ [])
            × IsVerified p req u w)
  unfolding verify_token
  verify_token-next ignored req w h = elim (Bool-cases (is_ignored ignored req)) [
    | inl open_route ↦ inl (open_route, ground arith)
    | inr secured ↦ inr (passed_as secured)
  ]
    where
      as_user :
          (u : AuthenticatedUser)
          → is_ignored ignored req ≡ false
          → IsVerified p req u w
          → (v : AuthenticatedUser) × (events p ignored req w ≡ user_set v ∷ next ∷ [])
            × IsVerified p req v w
      as_user u secured k = (u, (verify_token-user_iff p ignored req u w secured).1 k, k)

      passed_as :
          is_ignored ignored req ≡ false
          → (u : AuthenticatedUser) × (events p ignored req w ≡ user_set u ∷ next ∷ [])
            × IsVerified p req u w
      passed_as secured = elim (Option-cases req.access_token) [
        | inl e ↦ absurd (ground arith)
        | inr (token, e) ↦ elim (Result-split (p.validate_token token w).0) [
          | inl (d, v) ↦ elim (Result-split (p.get_user_id_from_token d)) [
            | inl (i, vi) ↦ elim (Result-split (p.get_user_roles_from_token d)) [
              | inl (rs, vr) ↦
                  as_user (record { id = i; roles = rs }) secured
                    (record {
                      token = token;
                      decoded = d;
                      has_token = e;
                      valid = v;
                      id = vi;
                      roles = vr;
                    })
              | inr (inl (x, vr)) ↦ absurd (ground arith)
              | inr (inr vr) ↦ absurd (ground arith)
            ]
            | inr (inl (x, vi)) ↦ absurd (ground arith)
            | inr (inr vi) ↦ absurd (ground arith)
          ]
          | inr (inl (x, v)) ↦ absurd (ground arith)
          | inr (inr v) ↦ absurd (ground arith)
        ]
      ]
