-- ===== src/Oauth/Claims.antt =====
-- The claims of an access token that pkg/oauth reads.
use the_black_hole.Prelude.{
  String, List, [], ◌∷◌, Option, some, Bool, false, ◌||◌, ◌===◌, is_set, text_fields, if◌then◌else◌,
}
use the_black_hole.Json.{Value, text, array, Items, nil, cons, Fields, lookup}

-- `s, _ := v.(string)`
unfoldable pub text_claim : Option Value → String
text_claim (some (text s)) = s
text_claim _ = ""

-- The loop over a claim that is an array.
unfoldable pub has_text : String → Items → Bool
has_text uri nil = false
has_text uri (cons (text s) xs) = s === uri || has_text uri xs
has_text uri (cons _ xs) = has_text uri xs

-- `audienceContains`; a decoded claim is no `[]string`.
unfoldable pub audience_contains : (aud : Option Value) → (resource_uri : String) → Bool
unfolding has_text
audience_contains (some (text s)) uri = if uri === "" then false else s === uri
audience_contains (some (array xs)) uri = if uri === "" then false else has_text uri xs
audience_contains _ uri = false

unfoldable pub text_items : Items → List String
text_items nil = []
text_items (cons (text s) xs) = let rest = text_items xs in if is_set s then s ∷ rest else rest
text_items (cons _ xs) = text_items xs

-- `parseScopes`, from the claim `scp` on.
unfoldable pub scp_scopes : Option Value → List String
unfolding text_items text_fields
scp_scopes (some (text s)) = if is_set s then text_fields s else []
scp_scopes (some (array xs)) = text_items xs
scp_scopes _ = []

-- `parseScopes`; no scopes are `nil`.
unfoldable pub parse_scopes : Fields → List String
unfolding text_claim scp_scopes text_fields
parse_scopes raw =
    if is_set (text_claim (lookup "scope" raw))
    then text_fields (text_claim (lookup "scope" raw))
    else scp_scopes (lookup "scp" raw)
