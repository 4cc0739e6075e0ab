-- ===== src/Auth/Portal.antt =====
-- Who reaches a handler behind the middlewares of the portal.
use the_black_hole.Prelude.{
  String, Option, some, Bool, ◌===◌, ◌≡◌, ◌≢◌, ◌⊎◌, inl, inr, refl, ap, ◌∙◌, Bool-cases,
  Option-cases, eq_iff, arith,
}
use the_black_hole.Auth.{
  Claims, PortalRequest, refused, served, unauthorized, bearer_token, authenticate,
  portal_auth_middleware, admin_auth_middleware,
}

module _ (equal_fold : String → String → Bool) (validate_jwt : String → Option Claims) where
  -- The request carries a token that the library accepts, with these claims.
  abbrev pub Holds : PortalRequest → Claims → Type 0
  Holds r claims =
      (bearer_token equal_fold validate_jwt r ≢ "")
      × (validate_jwt (bearer_token equal_fold validate_jwt r) ≡ some claims)

  -- A handler gets the request with the name and the role of these claims in its headers.
  abbrev pub named : PortalRequest → Claims → PortalRequest
  named r claims = record r { user_identity = claims.username; user_role = claims.role }

  authenticate_lem :
      (r r' : PortalRequest) (claims : Claims)
      → authenticate equal_fold validate_jwt r ≡ some (claims, r')
      → Holds r claims × (r' ≡ named r claims)
  unfolding authenticate
  authenticate_lem r r' claims h =
      let token = bearer_token equal_fold validate_jwt r in
      let empty = eq_iff token "" in
      elim (Option-cases (validate_jwt token)) [
        | inl n ↦ let absent = n in ground arith
        | inr (c, y) ↦
            let present = y in
            let same : c ≡ claims = ground arith in
            ((λ e. ground arith, y ∙ ap some same), ground arith)
      ]

  -- A handler behind `PortalAuthMiddleware` runs only for a request with a token that is accepted, and a
  -- handler behind `AdminAuthMiddleware` only if the role in its claims is that of an administrator. In
  -- both cases the headers for the name and the role are those of the claims, whatever the request had
  -- there. Any other request is answered with status 401, or with 403 for a token with another role.
  pub admin_auth_middleware-Holds :
      (r : PortalRequest)
      → ((portal_auth_middleware equal_fold validate_jwt r ≡ refused 401 unauthorized)
          × (admin_auth_middleware equal_fold validate_jwt r ≡ refused 401 unauthorized))
        ⊎ ((claims : Claims) × Holds r claims
            × (portal_auth_middleware equal_fold validate_jwt r ≡ served (named r claims))
            × (((claims.role ≡ "admin")
                  × (admin_auth_middleware equal_fold validate_jwt r ≡ served (named r claims)))
                ⊎ ((claims.role ≢ "admin")
                    × (admin_auth_middleware equal_fold validate_jwt r
                        ≡ refused 403 "{\"error\":\"forbidden: admin role required\"}"))))
  unfolding portal_auth_middleware admin_auth_middleware
  admin_auth_middleware-Holds r = elim (Option-cases (authenticate equal_fold validate_jwt r)) [
    | inl n ↦ inl (let absent = n in ground arith, let absent = n in ground arith)
    | inr ((claims, r'), y) ↦
        let (holds, same) = authenticate_lem r r' claims y in
        let present = y in
        let role = eq_iff claims.role "admin" in
        inr (
          claims,
          holds,
          rw (y, same) refl,
          elim (Bool-cases (claims.role === "admin")) [
            | inl a ↦ inl (role.0 a, rw (y, a, same) refl)
            | inr a ↦ inr (λ e. (let other = a in ground arith), rw (y, a) refl)
          ],
        )
  ]
