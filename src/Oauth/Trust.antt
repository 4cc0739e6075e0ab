-- ===== src/Oauth/Trust.antt =====
-- Which issuers and which audiences pkg/oauth accepts.
use the_black_hole.Prelude.{
  String, List, [], ◌∷◌, Option, none, some, true, ◌===◌, has_prefix, trim_suffix_slash, ◌≡◌, ◌≢◌,
  ◌⊎◌, inl, inr, ap, Bool-cases, eq_iff, arith,
}
use the_black_hole.Json.{Value, null, flag, number, text, array, object, Items, nil, cons}
use the_black_hole.Oauth.Claims.{audience_contains, has_text}
use the_black_hole.Oauth.{Config, issuer_trusted, is_listed}

-- One of the servers, but for a slash at the end.
abbrev pub IsListed : (iss : String) → List String → Type 0
IsListed iss [] = ⊥
IsListed iss (a ∷ servers) = (trim_suffix_slash a ≡ trim_suffix_slash iss) ⊎ IsListed iss servers

is_listed-IsListed :
    (iss : String) (servers : List String)
    → is_listed (trim_suffix_slash iss) servers ≡ true
    → IsListed iss servers
unfolding is_listed
is_listed-IsListed iss [] h = cc
is_listed-IsListed iss (a ∷ servers) h =
    elim (Bool-cases (trim_suffix_slash a === trim_suffix_slash iss)) [
      | inl y ↦ inl ((eq_iff (trim_suffix_slash a) (trim_suffix_slash iss)).0 y)
      | inr n ↦ inr (is_listed-IsListed iss servers (let other = n in ground arith))
    ]

-- A URL of https, of a server that is trusted.
abbrev pub IsTrusted : Config → (iss : String) → Type 0
IsTrusted config iss =
    (has_prefix iss "https://" ≡ true) × IsListed iss config.authorization_servers

pub issuer_trusted-IsTrusted :
    (config : Config) (iss : String) → issuer_trusted config iss ≡ true → IsTrusted config iss
unfolding issuer_trusted
issuer_trusted-IsTrusted config iss h =
    (ground arith, is_listed-IsListed iss config.authorization_servers (ground arith))

-- A claim that is a text, or an array that has it.
abbrev pub HasText : String → Items → Type 0
HasText uri nil = ⊥
HasText uri (cons v xs) = (v ≡ text uri) ⊎ HasText uri xs

abbrev pub IsAudience : String → Option Value → Type 0
IsAudience uri (some (array xs)) = HasText uri xs
IsAudience uri aud = aud ≡ some (text uri)

has_text-HasText : (uri : String) (xs : Items) → has_text uri xs ≡ true → HasText uri xs
unfolding has_text
has_text-HasText uri nil h = cc
has_text-HasText uri (cons (text s) xs) h = elim (Bool-cases (s === uri)) [
  | inl y ↦ inl (ap text ((eq_iff s uri).0 y))
  | inr n ↦ inr (has_text-HasText uri xs (let other = n in ground arith))
]
has_text-HasText uri (cons null xs) h = inr (has_text-HasText uri xs h)
has_text-HasText uri (cons (flag b) xs) h = inr (has_text-HasText uri xs h)
has_text-HasText uri (cons (number n) xs) h = inr (has_text-HasText uri xs h)
has_text-HasText uri (cons (array ys) xs) h = inr (has_text-HasText uri xs h)
has_text-HasText uri (cons (object fs) xs) h = inr (has_text-HasText uri xs h)

pub audience_contains-IsAudience :
    (uri : String) (aud : Option Value)
    → audience_contains aud uri ≡ true
    → (uri ≢ "") × IsAudience uri aud
unfolding audience_contains
audience_contains-IsAudience uri none h = cc
audience_contains-IsAudience uri (some null) h = cc
audience_contains-IsAudience uri (some (flag b)) h = cc
audience_contains-IsAudience uri (some (number n)) h = cc
audience_contains-IsAudience uri (some (object fs)) h = cc
audience_contains-IsAudience uri (some (text s)) h =
    let unset = eq_iff uri "" in
    let same = eq_iff s uri in (λ e. ground arith, ap (λ t. some (text t)) (same.0 (ground arith)))
audience_contains-IsAudience uri (some (array xs)) h =
    let unset = eq_iff uri "" in (λ e. ground arith, has_text-HasText uri xs (ground arith))
