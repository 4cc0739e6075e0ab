-- ===== src/ToolIntegrity.antt =====
-- pkg/toolintegrity: the hash by which a tool's definition is pinned. The decoder and the encoders of
-- encoding/json and SHA-256 are parameters.
pub mod Canonical
mod Tests
use the_black_hole.Prelude.{
  String, List, [], ◌∷◌, Option, none, some, Bool, true, false, not, ◌===◌, ◌<>◌, if◌then◌else◌,
  join, text_leb,
}
use the_black_hole.Json.{
  Value, null, flag, number, text, array, object, Items, nil, cons, Fields, end, field,
}

-- `ToolDef`; `canonicalForm` has the same fields.
pub record ToolDef : Type 0 where
  pub name : String
  pub description : String
  pub method : String
  pub path : String
  pub parameters_schema : String

-- What the package takes from others: `json.Unmarshal` into an `interface{}`, `json.Marshal` of a scalar
-- and of a `canonicalForm`, and the SHA-256 digest in hexadecimal.
pub record Codec : Type 0 where
  pub parse : String → Option Value
  pub encode_scalar : Value → String
  pub marshal : ToolDef → String
  pub digest : String → String

-- `sort.Strings(keys)`, where each key carries what is written for its value.
unfoldable pub insert_key : (key written : String) → List (String × String) → List (String × String)
insert_key key s [] = (key, s) ∷ []
insert_key key s ((key', s') ∷ m) =
    if text_leb key key' then (key, s) ∷ (key', s') ∷ m else (key', s') ∷ insert_key key s m

unfoldable pub sort_keys : List (String × String) → List (String × String)
unfolding insert_key
sort_keys [] = []
sort_keys ((key, s) ∷ m) = insert_key key s (sort_keys m)

-- `"key":value` for each key.
unfoldable pub write_entries : Codec → List (String × String) → List String
write_entries c [] = []
write_entries c ((key, s) ∷ m) = (c.encode_scalar (text key) <> ":" <> s) ∷ write_entries c m

-- `writeCanonical` on an empty buffer. The values are written before the keys are sorted, which makes
-- no difference to what stands in the buffer.
unfoldable mutual
  unfolding sort_keys write_entries join

  pub write_canonical : Codec → Value → String
  write_canonical c null = c.encode_scalar null
  write_canonical c (flag b) = c.encode_scalar (flag b)
  write_canonical c (number n) = c.encode_scalar (number n)
  write_canonical c (text s) = c.encode_scalar (text s)
  write_canonical c (array xs) = "[" <> join "," (write_items c xs) <> "]"
  write_canonical c (object fs) =
      "{" <> join "," (write_entries c (sort_keys (write_fields c fs))) <> "}"

  pub write_items : Codec → Items → List String
  write_items c nil = []
  write_items c (cons v xs) = write_canonical c v ∷ write_items c xs

  pub write_fields : Codec → Fields → List (String × String)
  write_fields c end = []
  write_fields c (field key v fs) = (key, write_canonical c v) ∷ write_fields c fs

unfoldable pub canonical_of : Codec → String → Option Value → String
unfolding write_canonical
canonical_of c schema none = schema
canonical_of c schema (some v) = write_canonical c v

-- `canonicalizeSchema`
unfoldable pub canonicalize_schema : Codec → String → String
unfolding canonical_of
canonicalize_schema c schema = canonical_of c schema (c.parse schema)

-- The `canonicalForm` of a definition.
unfoldable pub canonical_form : Codec → ToolDef → ToolDef
unfolding canonicalize_schema
canonical_form c d = record d { parameters_schema = canonicalize_schema c d.parameters_schema }

-- `Hash`
unfoldable pub hash : Codec → ToolDef → String
unfolding canonical_form
hash c d = c.digest (c.marshal (canonical_form c d))

-- `Changed`
unfoldable pub changed : Codec → (prior_hash : String) → ToolDef → Bool
unfolding hash
changed c prior_hash d = if prior_hash === "" then false else not (hash c d === prior_hash)
