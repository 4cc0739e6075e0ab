-- ===== src/Mcp/Auth.antt =====
-- How a request names its caller: `extractToken`, `resolveAuth`, `allowedOrigin`, and
-- `VerifyGatewayToken` of pkg/auth/auth.go.
use the_black_hole.Prelude.{
  ℕ, ◌+◌, String, List, [], ◌∷◌, Option, none, some, Bool, true, false, ◌&&◌, ◌||◌, ◌===◌, ◌==◌,
  leb, if◌then◌else◌, is_set, code, text_drop, trim_space, split_on, ◌≡◌, ◌≢◌, ◌⊎◌, inl, inr,
  Bool-cases, Option-cases, eq_iff, arith,
}
use the_black_hole.Mcp.Types.{Services, Caller, StoredToken, OauthClaims}

-- `VerifyGatewayToken`
unfoldable pub verify_gateway_token : {S : Type 0} → Services S → String → Bool
verify_gateway_token svc token =
    if svc.gateway_token === "" then false else svc.digest token === svc.digest svc.gateway_token

-- The loop that trims the parts of a list of scopes and drops those that are empty.
unfoldable pub trim_parts : List String → List String
unfolding trim_space
trim_parts [] = []
trim_parts (part ∷ parts) =
    let t = trim_space part in let rest = trim_parts parts in if is_set t then t ∷ rest else rest

-- `strings.Split(ct.Scopes, ",")`, trimmed
unfoldable pub split_scopes : String → List String
unfolding trim_parts split_on
split_scopes scopes = trim_parts (split_on b',' scopes)

-- The caller that an OAuth token names.
unfoldable pub oauth_caller : OauthClaims → Caller
oauth_caller claims = record {
  identity = if claims.subject === "" then "oauth-client" else claims.subject;
  role = "user";
  scopes = claims.scopes;
}

unfoldable pub resolve_oauth : {S : Type 0} → Services S → String → S → Option Caller
unfolding oauth_caller
resolve_oauth svc token s = elim svc.oauth [
  | none ↦ none
  | some validate_token ↦ elim (validate_token token s) [
    | none ↦ none
    | some claims ↦ some (oauth_caller claims)
  ]
]

unfoldable pub stored_caller : StoredToken → Caller
unfolding split_scopes
stored_caller ct = record {
  identity = ct.client_name;
  role = ct.client_role;
  scopes = split_scopes ct.scopes;
}

abbrev pub master : Caller
master = record { identity = "master"; role = "admin"; scopes = "*" ∷ [] }

-- `resolveAuth`; a token that is not accepted gives `none`.
unfoldable pub resolve_auth : {S : Type 0} → Services S → String → S → Option Caller
unfolding verify_gateway_token resolve_oauth stored_caller
resolve_auth svc token s =
    if verify_gateway_token svc token then some master else elim (svc.get_client_token token s) [
      | none ↦ resolve_oauth svc token s
      | some ct ↦ if ct.enabled then some (stored_caller ct) else resolve_oauth svc token s
    ]

-- `StartStdioMode`: who the client on the standard input is, from the text of `MCP_GATEWAY_TOKEN`.
unfoldable pub stdio_caller : {S : Type 0} → Services S → String → S → Caller
unfolding verify_gateway_token stored_caller
stdio_caller svc token s =
    let invalid : Caller = record {
      identity = "invalid-token";
      role = "unauthenticated";
      scopes = [];
    } in
    if token === ""
    then master
    else if verify_gateway_token svc token
    then master
    else elim (svc.get_client_token token s) [
      | none ↦ invalid
      | some ct ↦ if ct.enabled then stored_caller ct else invalid
    ]

-- Is a character the given one, a small letter or a space, but for its case?
same_letter : ℕ → ℕ → Bool
same_letter c small = c == small || (leb b'A' c && leb c b'Z' && (c + 32) == small)

-- `strings.HasPrefix(strings.ToLower(s), t)`, where `t` has only letters and spaces of ASCII: no other
-- character becomes one of them in small letters.
unfoldable pub lower_has_prefix : String → String → Bool
unfolding same_letter
lower_has_prefix s String.[] = true
lower_has_prefix String.[] (String.◌∷◌ d t) = false
lower_has_prefix (String.◌∷◌ c s) (String.◌∷◌ d t) =
    same_letter (code c) (code d) && lower_has_prefix s t

-- `extractToken`, from the header `Authorization` and the query parameter `token`.
unfoldable pub extract_token : (authorization token_param : String) → String
unfolding lower_has_prefix trim_space
extract_token authorization token_param =
    if lower_has_prefix authorization "bearer "
    then trim_space (text_drop 7 authorization)
    else token_param

-- The loop of `allowedOrigin`.
unfoldable pub match_origin : (equal_fold : String → String → Bool) → List String → String → String
match_origin equal_fold [] origin = ""
match_origin equal_fold (o ∷ os) origin =
    if o === "*" || equal_fold o origin then o else match_origin equal_fold os origin

-- `allowedOrigin`, from the header `Origin`.
unfoldable pub allowed_origin : {S : Type 0} → Services S → String → String
unfolding match_origin
allowed_origin svc origin =
    if origin === "" then "" else match_origin svc.equal_fold svc.cors_origins origin

-- Who may have the role of an administrator: the holder of the master token, which is set, or of a
-- stored token that is enabled and has that role.
abbrev pub MayAdminister : {S : Type 0} → Services S → String → S → Type 0
MayAdminister svc token s =
    ((svc.gateway_token ≢ "") × (svc.digest token ≡ svc.digest svc.gateway_token))
    ⊎ ((ct : StoredToken) × (svc.get_client_token token s ≡ some ct)
        × (ct.enabled ≡ true)
        × (ct.client_role ≡ "admin"))

pub verify_gateway_token_lem :
    {S : Type 0} (svc : Services S) (token : String)
    → verify_gateway_token svc token ≡ true
    → (svc.gateway_token ≢ "") × (svc.digest token ≡ svc.digest svc.gateway_token)
unfolding verify_gateway_token
verify_gateway_token_lem svc token h = elim (Bool-cases (svc.gateway_token === "")) [
  | inl y ↦ ground arith
  | inr n ↦ (
    λ e. let test = (eq_iff svc.gateway_token "").1 e in ground arith,
    (eq_iff (svc.digest token) (svc.digest svc.gateway_token)).0 ground arith,
  )
]

-- An OAuth token names no administrator.
oauth_role :
    {S : Type 0} (svc : Services S) (token : String) (s : S) (caller : Caller)
    → resolve_oauth svc token s ≡ some caller
    → caller.role ≡ "user"
unfolding resolve_oauth oauth_caller
oauth_role svc token s caller h = elim (Option-cases svc.oauth) [
  | inl off ↦ ground arith
  | inr (validate_token, on) ↦ elim (Option-cases (validate_token token s)) [
    | inl bad ↦ ground arith
    | inr (claims, good) ↦ ground arith
  ]
]

pub resolve_auth_admin :
    {S : Type 0} (svc : Services S) (token : String) (s : S) (caller : Caller)
    → resolve_auth svc token s ≡ some caller
    → caller.role ≡ "admin"
    → MayAdminister svc token s
unfolding resolve_auth stored_caller
resolve_auth_admin svc token s caller h admin = elim (Bool-cases (verify_gateway_token svc token)) [
  | inl y ↦ inl (verify_gateway_token_lem svc token y)
  | inr n ↦ elim (Option-cases (svc.get_client_token token s)) [
    | inl nothing ↦ let o = oauth_role svc token s caller (ground arith) in cc
    | inr (ct, found) ↦ elim (Bool-cases ct.enabled) [
      | inl on ↦ inr (ct, found, on, ground arith)
      | inr off ↦ let o = oauth_role svc token s caller (ground arith) in cc
    ]
  ]
]
