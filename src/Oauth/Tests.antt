-- ===== src/Oauth/Tests.antt =====
-- The theorems on access tokens at a concrete token.
use the_black_hole.Prelude.{
  ℕ, ◌+◌, String, [], ◌∷◌, none, true, ◌===◌, ◌≡◌, ◌==◌, ◌&&◌, ◌∙◌, ap, eq_iff, inl, inr, refl,
  if◌then◌else◌, arith,
}
use the_black_hole.Prelude.Results.{Result, ok, err, Result-cases}
use the_black_hole.Json.{Fields, text, field, end, lookup}
use the_black_hole.Oauth.Claims.{text_claim}
use the_black_hole.Oauth.{Config, Environment, Validator, RsaKey, TokenClaims, TokenHeader}
use the_black_hole.Oauth.Validation.{validate_token}
use the_black_hole.Oauth.Provenance.{AllPublished}
use the_black_hole.Oauth.Acceptance.{
  IsAccepted, validate_token-IsAccepted, run_tokens, run_tokens-AllPublished,
}

abbrev config : Config
config = record {
  enabled = true;
  resource_uri = "https://gw";
  authorization_servers = "https://as/" ∷ [];
  scopes_supported = [];
}

abbrev claims : Fields
claims = field "iss" (text "https://as") (field "aud" (text "https://gw") end)

-- The state is a clock. The library asks for the key of the one token, which the key of modulus 3 has signed.
abbrev environment : Environment ℕ
environment = record {
  request_fault = λ url. none;
  get_page = λ url t. (t + 1, ok (record { status = 200; body = "https://as/keys" }));
  decode_discovery = λ body. ok body;
  decode_jwks =
      λ body. ok (record { kty = "RSA"; kid = "k"; use_for = "sig"; n = "n"; e = "e" } ∷ []);
  decode_base64 = λ s. ok (3 ∷ []);
  now = λ t. t;
  quote = λ s. s;
  parse_unverified = λ token. ok claims;
  token_header = λ token. record { is_rsa = true; alg = "RS256"; kid = "k" };
  parse_with_claims = λ token keys methods issuer now.
      elim (keys (record { is_rsa = true; alg = "RS256"; kid = "k" })) [
        | err e ↦ err e
        | ok k ↦ if k.modulus == 3 && issuer === "https://as" then ok claims else err "refused"
      ];
}

abbrev accepted : TokenClaims
accepted = record { subject = ""; scopes = []; issuer = "https://as"; raw = claims }

abbrev fresh : Validator ℕ
fresh = record { jwks_cache = []; outside = 0 }

run_tokens-AllPublished_example :
    AllPublished environment
      (run_tokens environment config (("t", λ s. s + 5) ∷ ("u", λ s. s) ∷ []) fresh).jwks_cache
run_tokens-AllPublished_example =
    run_tokens-AllPublished environment config (("t", λ s. s + 5) ∷ ("u", λ s. s) ∷ []) 0

library :
    (token : String) (keys : TokenHeader → Result RsaKey) (issuer : String) (now : ℕ) (cs : Fields)
    → environment.parse_with_claims token keys ("RS256" ∷ "RS384" ∷ "RS512" ∷ []) issuer now ≡ ok cs
    → (k : RsaKey) × (keys (environment.token_header token) ≡ ok k)
      × (k.modulus ≡ 3)
      × (text_claim (lookup "iss" cs) ≡ issuer)
      × (cs ≡ claims)
unfolding text_claim
library token keys issuer now cs h =
    elim (Result-cases (keys (record { is_rsa = true; alg = "RS256"; kid = "k" }))) [
      | inl (e, n) ↦ let refused = n in absurd (ground arith)
      | inr (k, y) ↦
          let given = y in
          let named = eq_iff issuer "https://as" in
          let same : cs ≡ claims = ground arith in
          (k, y, ground arith, ap (λ c. text_claim (lookup "iss" c)) same ∙ ground arith, same)
    ]

validate_token-IsAccepted_example :
    IsAccepted environment config
      (λ k token. k.modulus ≡ 3)
      (λ cs now. cs ≡ claims)
      "t"
      (environment.now (validate_token environment config "t" fresh).0.outside)
      accepted
unfolding validate_token
validate_token-IsAccepted_example =
    validate_token-IsAccepted environment config (λ k token. k.modulus ≡ 3) (λ cs now. cs ≡ claims)
      library "t" fresh accepted tt refl
