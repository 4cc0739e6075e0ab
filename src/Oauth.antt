-- ===== src/Oauth.antt =====
-- pkg/oauth: the check of access tokens. The packages net/http, encoding/json and encoding/base64 and the
-- library for JWTs are parameters; a call holds the lock of the cache of keys as long as it runs.
pub mod Claims
pub mod Validation
pub mod Trust
pub mod Provenance
pub mod Acceptance
mod Tests
use the_black_hole.Prelude.{
  ℕ, zero, suc, ◌+◌, ◌*◌, ◌-◌, String, List, [], ◌∷◌, Option, none, some, Bool, true, false, not,
  ◌&&◌, ◌||◌, ◌===◌, ◌==◌, ◌<>◌, ltb, leb, has_prefix, trim_suffix_slash, decimal, is_set,
  if◌then◌else◌, on_option,
}
use the_black_hole.Prelude.Results.{Result, ok, err, on_result}
use the_black_hole.Json.{Value, text, Fields, lookup}
use the_black_hole.Oauth.Claims.{text_claim, audience_contains, parse_scopes}

-- `Config`
pub record Config : Type 0 where
  pub enabled : Bool
  pub resource_uri : String
  pub authorization_servers : List String
  pub scopes_supported : List String

-- `rsa.PublicKey`
pub record RsaKey : Type 0 where
  pub modulus : ℕ
  pub exponent : ℕ

-- A key of a JWKS document.
pub record Jwk : Type 0 where
  pub kty : String
  pub kid : String
  pub use_for : String
  pub n : String
  pub e : String

-- The status of a response and its body, of which 1 MiB is read.
pub record Page : Type 0 where
  pub status : ℕ
  pub body : String

-- The header of a token: is its method one of RSA, and `kid`, which is empty where it is no text.
pub record TokenHeader : Type 0 where
  pub is_rsa : Bool
  pub alg : String
  pub kid : String

-- The code that the validator calls, over a state `S` of the network and the clock. `parse_with_claims`
-- is `jwt.ParseWithClaims` with an expiration required; it gets the function for keys, the methods
-- and the issuer.
pub record Environment (S : Type 0) : Type 0 where
  pub request_fault : (url : String) → Option String
  pub get_page : (url : String) → S → S × Result Page
  pub decode_discovery : String → Result String
  pub decode_jwks : String → Result (List Jwk)
  pub decode_base64 : String → Result (List ℕ)
  pub now : S → ℕ
  pub quote : String → String
  pub parse_unverified : String → Result Fields
  pub token_header : String → TokenHeader
  pub parse_with_claims :
      (token : String) (keyfunc : TokenHeader → Result RsaKey) (methods : List String)
      (issuer : String) (now : ℕ)
      → Result Fields

-- `jwksCacheEntry`
pub record JwksCacheEntry : Type 0 where
  pub keys : List (String × RsaKey)
  pub fetched_at : ℕ

-- `Validator`: its cache, and what is outside.
pub record Validator (S : Type 0) : Type 0 where
  pub jwks_cache : List (String × JwksCacheEntry)
  pub outside : S

-- `Claims`
pub record TokenClaims : Type 0 where
  pub subject : String
  pub scopes : List String
  pub issuer : String
  pub raw : Fields

-- `jwksCacheTTL`, in nanoseconds.
abbrev pub jwks_cache_ttl : ℕ
jwks_cache_ttl = 300000000000

-- `m[key]` and `m[key] = v`
abbrev pub find_key {ℓ} : {A : Type ℓ} → String → List (String × A) → Option A
find_key key [] = none
find_key key ((k, v) ∷ m) = let rest = find_key key m in if k === key then some v else rest

unfoldable pub set_key {ℓ} : {A : Type ℓ} → String → A → List (String × A) → List (String × A)
set_key key v [] = (key, v) ∷ []
set_key key v ((k, w) ∷ m) =
    let rest = set_key key v m in if k === key then (key, v) ∷ m else (k, w) ∷ rest

-- `new(big.Int).SetBytes`
unfoldable pub of_bytes : ℕ → List ℕ → ℕ
of_bytes acc [] = acc
of_bytes acc (b ∷ bs) = of_bytes (acc * 256 + b) bs

-- The loop of `issuerTrusted`; both texts are without a slash at the end.
unfoldable pub is_listed : (trimmed : String) → List String → Bool
unfolding trim_suffix_slash
is_listed trimmed [] = false
is_listed trimmed (a ∷ servers) = trim_suffix_slash a === trimmed || is_listed trimmed servers

-- `issuerTrusted`
unfoldable pub issuer_trusted : Config → (iss : String) → Bool
unfolding is_listed trim_suffix_slash
issuer_trusted config iss =
    if iss === "" || not (has_prefix iss "https://")
    then false
    else is_listed (trim_suffix_slash iss) config.authorization_servers

module _ {S : Type 0} (env : Environment S) where
  -- `rsaPublicKeyFromJWK`
  unfoldable pub rsa_public_key_from_jwk : (n e : String) → Result RsaKey
  unfolding of_bytes
  rsa_public_key_from_jwk n e =
      on_result (env.decode_base64 n) (λ x. err ("decode jwk modulus: " <> x))
        (λ n_bytes.
          on_result (env.decode_base64 e) (λ x. err ("decode jwk exponent: " <> x))
            (λ e_bytes.
              let exponent = of_bytes 0 e_bytes in
              if ltb 9223372036854775807 exponent || ltb exponent 2
              then err "invalid jwk exponent"
              else ok (record { modulus = of_bytes 0 n_bytes; exponent = exponent })))

  -- Is a key one that is not passed over?
  unfoldable pub usable_key : Jwk → Result RsaKey
  unfolding rsa_public_key_from_jwk
  usable_key k =
      if not (k.kty === "RSA") || (is_set k.use_for && not (k.use_for === "sig"))
      then err ""
      else rsa_public_key_from_jwk k.n k.e

  -- The loop of `fetchJWKSKeys` over the keys of a document.
  unfoldable pub collect_keys : List Jwk → List (String × RsaKey) → List (String × RsaKey)
  unfolding usable_key set_key
  collect_keys [] keys = keys
  collect_keys (k ∷ ks) keys =
      collect_keys ks (on_result (usable_key k) (λ e. keys) (λ pub_key. set_key k.kid pub_key keys))

  -- `fetchJWKSKeys`
  unfoldable pub fetch_jwks_keys : (jwks_uri : String) → S → S × Result (List (String × RsaKey))
  unfolding collect_keys
  fetch_jwks_keys jwks_uri s =
      on_option (env.request_fault jwks_uri)
        (let (s', page) = env.get_page jwks_uri s in
          (
            s',
            on_result page (λ e. err ("fetch jwks: " <> e))
                (λ resp.
                  if not (resp.status == 200)
                  then err ("jwks endpoint returned HTTP " <> decimal resp.status)
                  else on_result (env.decode_jwks resp.body) (λ e. err ("decode jwks: " <> e))
                      (λ ks. elim (collect_keys ks []) [
                        | [] ↦ err "jwks contained no usable RSA signing keys"
                        | k ∷ keys ↦ ok (k ∷ keys)
                      ])),
          ))
        (λ e. (s, err ("build jwks request: " <> e)))

  -- `fetchDiscoveryJWKSURI`
  unfoldable pub fetch_discovery_jwks_uri : (discovery_url : String) → S → S × Result String
  fetch_discovery_jwks_uri discovery_url s =
      on_option (env.request_fault discovery_url)
        (let (s', page) = env.get_page discovery_url s in
          (
            s',
            on_result page (λ e. err ("fetch discovery document: " <> e))
                (λ resp.
                  if not (resp.status == 200)
                  then err (
                      "discovery document "
                      <> discovery_url
                      <> " returned HTTP "
                      <> decimal resp.status)
                  else on_result (env.decode_discovery resp.body)
                      (λ e. err ("decode discovery document: " <> e))
                      (λ uri.
                        if uri === "" then err "discovery document missing jwks_uri" else ok uri)),
          ))
        (λ e. (s, err ("build discovery request: " <> e)))

  -- `discoverJWKSURI`
  unfoldable pub discover_jwks_uri : (issuer : String) → S → S × Result String
  unfolding fetch_discovery_jwks_uri
  discover_jwks_uri issuer s =
      let (s1, first) =
        fetch_discovery_jwks_uri (issuer <> "/.well-known/oauth-authorization-server") s in
      on_result first
        (λ e.
          let (s2, second) =
            fetch_discovery_jwks_uri (issuer <> "/.well-known/openid-configuration") s1 in
          (
            s2,
            on_result second
                (λ e'. err ("discover jwks_uri for issuer " <> env.quote issuer <> ": " <> e'))
                (λ uri. ok uri),
          ))
        (λ uri. (s1, ok uri))
