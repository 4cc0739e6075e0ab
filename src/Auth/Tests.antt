-- ===== src/Auth/Tests.antt =====
-- The theorem on the middlewares at a concrete request.
use the_black_hole.Prelude.{
  String, Option, none, some, Bool, ◌||◌, ◌===◌, ◌≡◌, ◌≢◌, ◌⊎◌, if◌then◌else◌,
}
use the_black_hole.Auth.{
  Claims, PortalRequest, refused, served, unauthorized, portal_auth_middleware,
  admin_auth_middleware,
}
use the_black_hole.Auth.Portal.{Holds, named, admin_auth_middleware-Holds}

-- The token "t" is that of a user who is no administrator, and who sends other headers.
abbrev user : Claims
user = record { username = "ann"; role = "viewer" }

abbrev validate : String → Option Claims
validate token = if token === "t" then some user else none

abbrev request : PortalRequest
request = record { authorization = "Bearer t"; user_identity = "root"; user_role = "admin" }

abbrev same_text : String → String → Bool
same_text s t = s === "Bearer" || s === t

admin_auth_middleware-Holds_example :
    ((portal_auth_middleware same_text validate request ≡ refused 401 unauthorized)
      × (admin_auth_middleware same_text validate request ≡ refused 401 unauthorized))
    ⊎ ((claims : Claims) × Holds same_text validate request claims
        × (portal_auth_middleware same_text validate request
            ≡ served (named same_text validate request claims))
        × (((claims.role ≡ "admin")
              × (admin_auth_middleware same_text validate request
                  ≡ served (named same_text validate request claims)))
            ⊎ ((claims.role ≢ "admin")
                × (admin_auth_middleware same_text validate request
                    ≡ refused 403 "{\"error\":\"forbidden: admin role required\"}"))))
admin_auth_middleware-Holds_example = admin_auth_middleware-Holds same_text validate request
