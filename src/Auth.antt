-- ===== src/Auth.antt =====
-- pkg/auth: who may use the portal. The library for JWTs is a parameter.
pub mod Portal
mod Tests
use the_black_hole.Prelude.{
  ℕ, String, List, [], ◌∷◌, Option, none, some, Bool, true, false, not, ◌&&◌, ◌===◌, ◌==◌, code,
  trim_space, if◌then◌else◌, on_option,
}

-- `Claims`, less the registered ones
pub record Claims : Type 0 where
  pub username : String
  pub role : String

-- A request, by what the middlewares read and set of it.
pub record PortalRequest : Type 0 where
  pub authorization : String
  pub user_identity : String
  pub user_role : String

-- What a request leads to: an answer of `http.Error`, or the handler behind, with the request.
pub data Passage : Type 0 where
  refused : (status : ℕ) (message : String) → Passage
  served : PortalRequest → Passage

-- The two parts of `strings.SplitN(s, " ", 2)`, or `none` where there is one.
unfoldable pub split_space : String → Option (String × String)
split_space String.[] = none
split_space (String.◌∷◌ c s) =
    let rest = split_space s in
    if code c == b' '
    then some ("", s)
    else on_option rest none (λ (a, b). some (String.◌∷◌ c a, b))

abbrev pub unauthorized : String
unauthorized = "{\"error\":\"unauthorized\"}"

module _ (equal_fold : String → String → Bool) (validate_jwt : String → Option Claims) where
  -- `bearerToken`
  unfoldable pub bearer_token : PortalRequest → String
  unfolding split_space trim_space
  bearer_token r =
      if r.authorization === ""
      then ""
      else on_option (split_space r.authorization) ""
          (λ (scheme, rest). if equal_fold scheme "bearer" then trim_space rest else "")

  -- `authenticate`: the claims, and the request with its headers set; `none` where it has answered.
  unfoldable pub authenticate : PortalRequest → Option (Claims × PortalRequest)
  unfolding bearer_token
  authenticate r =
      if bearer_token r === ""
      then none
      else on_option (validate_jwt (bearer_token r)) none (λ claims.
        some (claims, record r { user_identity = claims.username; user_role = claims.role }))

  -- `PortalAuthMiddleware`
  unfoldable pub portal_auth_middleware : PortalRequest → Passage
  unfolding authenticate
  portal_auth_middleware r =
      on_option (authenticate r) (refused 401 unauthorized) (λ (claims, r'). served r')

  -- `AdminAuthMiddleware`
  unfoldable pub admin_auth_middleware : PortalRequest → Passage
  unfolding authenticate
  admin_auth_middleware r = on_option (authenticate r) (refused 401 unauthorized) (λ (claims, r').
      if not (claims.role === "admin")
      then refused 403 "{\"error\":\"forbidden: admin role required\"}"
      else served r')
