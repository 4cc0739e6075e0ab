-- ===== src/Oauth/Acceptance.antt =====
-- What a token is that pkg/oauth accepts.
use the_black_hole.Prelude.{
  ◌⊎◌, inl, inr, ◌≢◌, ℕ, ◌-◌, ◌<◌, String, List, [], ◌∷◌, some, true, not, ◌===◌, trim_suffix_slash,
  ◌≡◌, sym, subst, if_cases, Bool-cases, arith,
}
use the_black_hole.Prelude.Results.{Result, ok, err, on_result_cases, err-ok, ok-injective}
use the_black_hole.Json.{Fields, lookup}
use the_black_hole.Oauth.Claims.{text_claim, audience_contains, parse_scopes}
use the_black_hole.Oauth.{
  Config, RsaKey, TokenHeader, Environment, JwksCacheEntry, Validator, TokenClaims, jwks_cache_ttl,
  find_key, issuer_trusted,
}
use the_black_hole.Oauth.Validation.{
  fetch_jwks, keyfunc, check_token, validate_issued, validate_token,
}
use the_black_hole.Oauth.Trust.{
  IsTrusted, IsAudience, issuer_trusted-IsTrusted, audience_contains-IsAudience,
}
use the_black_hole.Oauth.Provenance.{IsPublished, AllPublished, fetch_jwks-IsSound}

-- One of the keys.
abbrev pub HasKey : RsaKey → List (String × RsaKey) → Type 0
HasKey key [] = ⊥
HasKey key ((kid, k) ∷ keys) = (k ≡ key) ⊎ HasKey key keys

find_key-HasKey :
    (kid : String) (keys : List (String × RsaKey)) (key : RsaKey)
    → find_key kid keys ≡ some key
    → HasKey key keys
find_key-HasKey kid [] key h = cc
find_key-HasKey kid ((k, x) ∷ keys) key h = elim (Bool-cases (k === kid)) [
  | inl y ↦ inl (let here = y in ground arith)
  | inr n ↦ inr (find_key-HasKey kid keys key (let other = n in ground arith))
]

only_key :
    {S : Type 0} (env : Environment S) (keys : List (String × RsaKey)) (key : RsaKey)
    → elim keys as (λ (k : List (String × RsaKey)). Result RsaKey) [
      | (kid, k) ∷ [] ↦ ok k
      | _ ↦ err "oauth: token missing kid and issuer has multiple keys"
    ]
      ≡ ok key
    → HasKey key keys
only_key env [] key h = cc
only_key env ((kid, k) ∷ []) key h = inl (cc)
only_key env ((kid, k) ∷ x ∷ keys) key h = cc

keyfunc-HasKey :
    {S : Type 0} (env : Environment S) (keys : List (String × RsaKey)) (header : TokenHeader)
    (key : RsaKey)
    → keyfunc env keys header ≡ ok key
    → (header.is_rsa ≡ true) × HasKey key keys
unfolding keyfunc
keyfunc-HasKey env keys header key h = elim (Bool-cases header.is_rsa) [
  | inr n ↦ let other = n in ground arith
  | inl y ↦ (
    y,
    elim (Bool-cases (header.kid === "")) [
      | inl bare ↦ only_key env keys key (let set = bare in let rsa = y in ground arith)
      | inr named ↦
          find_key-HasKey header.kid keys key (let set = named in let rsa = y in ground arith)
    ],
  )
]

module _ {S : Type 0} (env : Environment S) (config : Config) (IsSigned : RsaKey → String → Type 0)
    (IsLive : Fields → ℕ → Type 0) where
  -- A token that is accepted: a trusted issuer, a fresh key that it published, a signature by that key,
  -- an issuer that is the one of the signed claims, which are in force, and this resource as their
  -- audience.
  abbrev pub IsAccepted : (token : String) (now : ℕ) → TokenClaims → Type 0
  IsAccepted token now claims =
      IsTrusted config claims.issuer
      × ((e : JwksCacheEntry) × (key : RsaKey) × IsPublished env (trim_suffix_slash claims.issuer) e
          × (now - e.fetched_at < jwks_cache_ttl)
          × HasKey key e.keys
          × IsSigned key token)
      × ((env.token_header token).is_rsa ≡ true)
      × (text_claim (lookup "iss" claims.raw) ≡ claims.issuer)
      × IsLive claims.raw now
      × (config.resource_uri ≢ "")
      × IsAudience config.resource_uri (lookup "aud" claims.raw)

  module _
      (checked : (token : String) (keys : TokenHeader → Result RsaKey) (issuer : String) (now : ℕ)
          (claims : Fields)
        → env.parse_with_claims token keys ("RS256" ∷ "RS384" ∷ "RS512" ∷ []) issuer now ≡ ok claims
        → (key : RsaKey) × (keys (env.token_header token) ≡ ok key)
          × IsSigned key token
          × (text_claim (lookup "iss" claims) ≡ issuer)
          × IsLive claims now) where
    check_token-IsAccepted :
        (token iss : String) (keys : List (String × RsaKey)) (now : ℕ) (e : JwksCacheEntry)
        (claims : TokenClaims)
        → IsTrusted config iss
        → IsPublished env (trim_suffix_slash iss) e
        → now - e.fetched_at < jwks_cache_ttl
        → e.keys ≡ keys
        → check_token env config token iss keys now ≡ ok claims
        → IsAccepted token now claims
    unfolding check_token
    check_token-IsAccepted token iss keys now e claims trusted published young same =
        let methods = "RS256" ∷ "RS384" ∷ "RS512" ∷ [] in
        let P = λ (r : Result TokenClaims). r ≡ ok claims → IsAccepted token now claims in
        on_result_cases P (env.parse_with_claims token (keyfunc env keys) methods iss now) _ _
          (λ x y h. absurd (err-ok h))
          (λ raw parsed.
            let (key, named, signed, issuer, live) =
              checked token (keyfunc env keys) iss now raw parsed in
            let (rsa, has) = keyfunc-HasKey env keys (env.token_header token) key named in
            if_cases P (not (audience_contains (lookup "aud" raw) config.resource_uri)) _ _
              (λ y h. absurd (err-ok h))
              (λ n h.
                let aud =
                  audience_contains-IsAudience config.resource_uri (lookup "aud" raw)
                    (ground arith) in
                let built : TokenClaims = record {
                  subject = text_claim (lookup "sub" raw);
                  scopes = parse_scopes raw;
                  issuer = iss;
                  raw = raw;
                } in
                let same_claims : built ≡ claims = ok-injective h in
                subst (IsAccepted token now) same_claims (
                  trusted,
                  (e, key, published, young, subst (HasKey key) (sym same) has, signed),
                  rsa,
                  issuer,
                  live,
                  aud.0,
                  aud.1,
                )))

    validate_issued-IsAccepted :
        (token iss : String) (v : Validator S) (claims : TokenClaims)
        → AllPublished env v.jwks_cache
        → (validate_issued env config token iss v).1 ≡ ok claims
        → IsAccepted token (env.now (validate_issued env config token iss v).0.outside) claims
    unfolding validate_issued
    validate_issued-IsAccepted token iss v claims h =
        let P = λ (r : Validator S × Result TokenClaims).
          r.1 ≡ ok claims → IsAccepted token (env.now r.0.outside) claims in
        if_cases P (not (issuer_trusted config iss)) _ _ (λ y z. absurd (err-ok z))
          (λ n.
            let trusted = issuer_trusted-IsTrusted config iss (ground arith) in
            let v' = (fetch_jwks env iss v).0 in
            let sound = fetch_jwks-IsSound env iss v h in
            on_result_cases
              (λ (r : Result TokenClaims).
                r ≡ ok claims → IsAccepted token (env.now v'.outside) claims)
              (fetch_jwks env iss v).1 _ _ (λ e y z. absurd (err-ok z))
              (λ keys y.
                let (e, same, published, young) = sound.1 keys y in
                check_token-IsAccepted token iss keys (env.now v'.outside) e claims trusted
                  published young same))

    -- Where each cached set of keys was published by its issuer: a token that `ValidateToken` accepts
    -- names an issuer of https that is trusted, and is signed, with a method of RSA, by a key that
    -- this issuer's document at a URL of https had less than five minutes before; its signed claims name
    -- this issuer, are in force, and have this resource, which is set, as an audience. The library for
    -- JWTs answers with claims only if the key that it asks for has signed them, the issuer is the one
    -- it was given, and they are in force.
    pub validate_token-IsAccepted :
        (token : String) (v : Validator S) (claims : TokenClaims)
        → AllPublished env v.jwks_cache
        → (validate_token env config token v).1 ≡ ok claims
        → IsAccepted token (env.now (validate_token env config token v).0.outside) claims
    unfolding validate_token
    validate_token-IsAccepted token v claims h =
        on_result_cases
          (λ (r : Validator S × Result TokenClaims).
            r.1 ≡ ok claims → IsAccepted token (env.now r.0.outside) claims)
          (env.parse_unverified token) _ _ (λ e y z. absurd (err-ok z))
          (λ raw y. validate_issued-IsAccepted token (text_claim (lookup "iss" raw)) v claims h)

-- Tokens that are validated one after the other, the last one first, with what happens outside between
-- two of them.
abbrev pub run_tokens :
    {S : Type 0} → Environment S → Config → List (String × (S → S)) → Validator S → Validator S
run_tokens env config [] v = v
run_tokens env config ((token, between) ∷ more) v =
    let v' = run_tokens env config more v in
    (validate_token env config token (record v' { outside = between v'.outside })).0

validate_token-AllPublished :
    {S : Type 0} (env : Environment S) (config : Config) (token : String) (v : Validator S)
    → AllPublished env v.jwks_cache
    → AllPublished env (validate_token env config token v).0.jwks_cache
unfolding validate_token validate_issued
validate_token-AllPublished {S} env config token v h =
    let P = λ (r : Validator S × Result TokenClaims). AllPublished env r.0.jwks_cache in
    on_result_cases P (env.parse_unverified token) _ _ (λ e y. h)
      (λ raw y.
        let iss = text_claim (lookup "iss" raw) in
        if_cases P (not (issuer_trusted config iss)) _ _ (λ y. h)
          (λ n. (fetch_jwks-IsSound env iss v h).0))

-- Whatever tokens were presented to a validator that began with no keys, each set of keys in its cache
-- was published by the issuer that it stands under, at a URL of https.
pub run_tokens-AllPublished :
    {S : Type 0} (env : Environment S) (config : Config) (tokens : List (String × (S → S))) (s : S)
    → AllPublished env
        (run_tokens env config tokens (record { jwks_cache = []; outside = s })).jwks_cache
run_tokens-AllPublished env config [] s = tt
run_tokens-AllPublished env config ((token, between) ∷ more) s =
    validate_token-AllPublished env config token _ (run_tokens-AllPublished env config more s)
