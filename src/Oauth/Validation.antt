-- ===== src/Oauth/Validation.antt =====
-- pkg/oauth/validator.go: the keys of an issuer, and `ValidateToken`.
use the_black_hole.Prelude.{
  ℕ, ◌-◌, String, List, [], ◌∷◌, Option, none, some, not, ◌===◌, ◌<>◌, ltb, has_prefix,
  trim_suffix_slash, if◌then◌else◌, on_option,
}
use the_black_hole.Prelude.Results.{Result, ok, err, on_result}
use the_black_hole.Json.{lookup}
use the_black_hole.Oauth.Claims.{text_claim, audience_contains, parse_scopes}
use the_black_hole.Oauth.{
  Config, RsaKey, TokenHeader, Environment, JwksCacheEntry, Validator, TokenClaims, jwks_cache_ttl,
  find_key, set_key, issuer_trusted, fetch_jwks_keys, discover_jwks_uri,
}

module _ {S : Type 0} (env : Environment S) where
  -- The entry of an issuer, where it is not too old.
  unfoldable pub fresh_entry : (issuer : String) → Validator S → Option JwksCacheEntry
  fresh_entry issuer v =
      on_option (find_key issuer v.jwks_cache) none
        (λ e. if ltb (env.now v.outside - e.fetched_at) jwks_cache_ttl then some e else none)

  -- `fetchJWKS`, from the discovery on.
  unfoldable pub download :
      (issuer : String) → Validator S → Validator S × Result (List (String × RsaKey))
  unfolding discover_jwks_uri fetch_jwks_keys set_key
  download issuer v =
      let (s1, found) = discover_jwks_uri env issuer v.outside in
      on_result found (λ e. (record v { outside = s1 }, err e))
        (λ uri.
          if not (has_prefix uri "https://")
          then (record v { outside = s1 }, err ("jwks_uri must be https, got " <> env.quote uri))
          else (let (s2, fetched) = fetch_jwks_keys env uri s1 in
              on_result fetched (λ e. (record v { outside = s2 }, err e))
                (λ keys. (
                  record {
                    jwks_cache =
                        set_key issuer (record { keys = keys; fetched_at = env.now s2 })
                          v.jwks_cache;
                    outside = s2;
                  },
                  ok keys,
                ))))

  -- `fetchJWKS`
  unfoldable pub fetch_jwks :
      (iss : String) → Validator S → Validator S × Result (List (String × RsaKey))
  unfolding fresh_entry download trim_suffix_slash
  fetch_jwks iss v =
      let issuer = trim_suffix_slash iss in
      if not (has_prefix issuer "https://")
      then (v, err ("issuer must be https, got " <> env.quote issuer))
      else on_option (fresh_entry issuer v) (download issuer v) (λ e. (v, ok e.keys))

  -- `keyfunc`
  unfoldable pub keyfunc : (keys : List (String × RsaKey)) → TokenHeader → Result RsaKey
  keyfunc keys header =
      if not header.is_rsa
      then err ("oauth: unexpected signing method " <> header.alg)
      else if header.kid === ""
      then elim keys [
        | (kid, key) ∷ [] ↦ ok key
        | _ ↦ err "oauth: token missing kid and issuer has multiple keys"
      ]
      else on_option (find_key header.kid keys)
          (err ("oauth: no jwks key for kid " <> env.quote header.kid)) (λ key. ok key)

  -- `ValidateToken`, once it has the keys.
  unfoldable pub check_token :
      Config → (token iss : String) → List (String × RsaKey) → (now : ℕ) → Result TokenClaims
  unfolding keyfunc audience_contains text_claim parse_scopes
  check_token config token iss keys now =
      on_result
        (env.parse_with_claims token (keyfunc keys) ("RS256" ∷ "RS384" ∷ "RS512" ∷ []) iss now)
        (λ e. err ("oauth: verify token: " <> e))
        (λ claims.
          if not (audience_contains (lookup "aud" claims) config.resource_uri)
          then err
              ("oauth: token audience does not include resource " <> env.quote config.resource_uri)
          else ok (record {
            subject = text_claim (lookup "sub" claims);
            scopes = parse_scopes claims;
            issuer = iss;
            raw = claims;
          }))

  -- `ValidateToken`, once it knows who claims to have issued the token.
  unfoldable pub validate_issued :
      Config → (token iss : String) → Validator S → Validator S × Result TokenClaims
  unfolding issuer_trusted fetch_jwks check_token
  validate_issued config token iss v =
      if not (issuer_trusted config iss)
      then (v, err ("oauth: issuer " <> env.quote iss <> " is not a trusted authorization server"))
      else (let (v', r) = fetch_jwks iss v in
          (
            v',
            on_result r (λ e. err ("oauth: resolve issuer signing keys: " <> e))
                (λ keys. check_token config token iss keys (env.now v'.outside)),
          ))

  -- `ValidateToken`
  unfoldable pub validate_token :
      Config → (token : String) → Validator S → Validator S × Result TokenClaims
  unfolding validate_issued text_claim
  validate_token config token v =
      on_result (env.parse_unverified token) (λ e. (v, err ("oauth: parse token: " <> e)))
        (λ unverified. validate_issued config token (text_claim (lookup "iss" unverified)) v)
