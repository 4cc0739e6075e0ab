-- ===== src/Mcp/Admin/Required.antt =====
-- The management tools keep to the schemas that `listTools` shows for them.
use the_black_hole.Prelude.{
  String, Option, none, some, ◌<>◌, ◌≡◌, ◌⊎◌, inl, inr, refl, subst, All, eq_iff, arith,
}
use the_black_hole.Prelude.Results.{Result, ok, err, Fails, Fails-first, Fails-then, ◌>>=◌}
use the_black_hole.Json.{
  Value, null, flag, number, text, array, object, Items, nil, cons, Fields, lookup,
}
use the_black_hole.Mcp.Types.{Tool, Services}
use the_black_hole.Mcp.Tools.{
  admin_tools, add_connection_tool, add_endpoint_tool, register_vault_secret_tool,
}
use the_black_hole.Mcp.Admin.{
  require_string_arg, connection_args, endpoint_args, secret_args, handle_admin_tool,
  register_connection, register_endpoint, register_secret, within, with_args,
}

-- Is a text among the items of a JSON array?
abbrev pub Lists : Items → String → Type 0
Lists nil key = ⊥
Lists (cons v xs) key = (v ≡ text key) ⊎ Lists xs key

-- Does the schema of a tool require an argument?
abbrev pub Requires : Tool → String → Type 0
Requires t key = elim t.input_schema [
  | object schema ↦ elim (lookup "required" schema) [ some (array keys) ↦ Lists keys key | _ ↦ ⊥ ]
  | _ ↦ ⊥
]

-- An argument that is missing, empty or no text.
abbrev pub IsMissing : Fields → String → Type 0
IsMissing args key = (s : String) → lookup key args ≡ some (text s) → s ≡ ""

-- Nothing is done.
abbrev pub IsRefused : {S : Type 0} → Services S → Tool → Fields → S → Type 0
IsRefused svc t args s = (e : String) × (handle_admin_tool svc t.name args s ≡ (s, err e))

abbrev complaint : (quote : String → String) (key : String) → String
complaint quote key = "missing or invalid required argument " <> quote key

require_string_arg-lookup :
    (quote : String → String) (args : Fields) (key : String) (o : Option Value)
    → lookup key args ≡ o
    → IsMissing args key
    → Fails (require_string_arg quote args key)
unfolding require_string_arg
require_string_arg-lookup quote args key none e missing = (complaint quote key, ground arith)
require_string_arg-lookup quote args key (some null) e missing = (complaint quote key, ground arith)
require_string_arg-lookup quote args key (some (flag b)) e missing =
    (complaint quote key, ground arith)
require_string_arg-lookup quote args key (some (number n)) e missing =
    (complaint quote key, ground arith)
require_string_arg-lookup quote args key (some (text s)) e missing =
    let empty = (eq_iff s "").1 (missing s e) in
    let invalid = "missing or invalid required argument " <> quote key in
    let same : require_string_arg quote args key ≡ err invalid = ground arith in (invalid, same)
require_string_arg-lookup quote args key (some (array xs)) e missing =
    (complaint quote key, ground arith)
require_string_arg-lookup quote args key (some (object fs)) e missing =
    (complaint quote key, ground arith)

require_string_arg-IsMissing :
    (quote : String → String) (args : Fields) (key : String)
    → IsMissing args key
    → Fails (require_string_arg quote args key)
require_string_arg-IsMissing quote args key =
    require_string_arg-lookup quote args key (lookup key args) refl

with_args-Fails :
    {S A : Type 0} (svc : Services S) (context : String) (r : Result A)
    (go : A → S → S × Result String) (s : S)
    → Fails r
    → (e : String) × (with_args svc (within context r) go s ≡ (s, err e))
with_args-Fails svc context (ok a) go s (e, h) = ground arith
with_args-Fails svc context (err e) go s h = (context <> ": " <> e, refl)

module _ (quote : String → String) (args : Fields) where
  -- An argument that is missing under one of its names is missing under the name that is asked for.
  fails :
      (key k : String)
      → IsMissing args key
      → text k ≡ text key
      → Fails (require_string_arg quote args k)
  fails key k missing same =
      let it : key ≡ k = cc in
      require_string_arg-IsMissing quote args k (subst (IsMissing args) it missing)

  now :
      {A : Type 0} (k : String) (f : String → Result A) (key : String)
      → IsMissing args key
      → text k ≡ text key
      → Fails (require_string_arg quote args k >>= f)
  now k f key m e = Fails-first (require_string_arg quote args k) f (fails key k m e)

  later :
      {A : Type 0} (k : String) (f : String → Result A)
      → ((v : String) → Fails (f v))
      → Fails (require_string_arg quote args k >>= f)
  later k f h = Fails-then (require_string_arg quote args k) f h

  connection_args-Requires :
      (key : String)
      → IsMissing args key
      → Requires add_connection_tool key
      → Fails (connection_args quote args)
  unfolding connection_args
  connection_args-Requires key m (inl e) = now "name" _ key m e
  connection_args-Requires key m (inr (inl e)) = later "name" _ (λ a. now "base_url" _ key m e)
  connection_args-Requires key m (inr (inr (inl e))) =
      later "name" _ (λ a. later "base_url" _ (λ b. now "auth_type" _ key m e))
  connection_args-Requires key m (inr (inr (inr x))) = elim x [ ]

  endpoint_args-Requires :
      (key : String)
      → IsMissing args key
      → Requires add_endpoint_tool key
      → Fails (endpoint_args quote args)
  unfolding endpoint_args
  endpoint_args-Requires key m (inl e) = now "connection_id" _ key m e
  endpoint_args-Requires key m (inr (inl e)) =
      later "connection_id" _ (λ a. now "tool_name" _ key m e)
  endpoint_args-Requires key m (inr (inr (inl e))) =
      later "connection_id" _ (λ a. later "tool_name" _ (λ b. now "tool_description" _ key m e))
  endpoint_args-Requires key m (inr (inr (inr (inl e)))) =
      later "connection_id" _
        (λ a. later "tool_name" _ (λ b. later "tool_description" _ (λ c. now "path" _ key m e)))
  endpoint_args-Requires key m (inr (inr (inr (inr (inl e))))) = later "connection_id" _ (λ a.
      later "tool_name" _
        (λ b. later "tool_description" _ (λ c. later "path" _ (λ d. now "method" _ key m e))))
  endpoint_args-Requires key m (inr (inr (inr (inr (inr x))))) = elim x [ ]

  secret_args-Requires :
      (key : String)
      → IsMissing args key
      → Requires register_vault_secret_tool key
      → Fails (secret_args quote args)
  unfolding secret_args
  secret_args-Requires key m (inl e) = now "key" _ key m e
  secret_args-Requires key m (inr (inl e)) = later "key" _ (λ a. now "value" _ key m e)
  secret_args-Requires key m (inr (inr x)) = elim x [ ]

-- A call of a management tool in which an argument is missing, empty or no text, where the schema that
-- `listTools` shows requires it, is refused, and changes nothing.
pub handle_admin_tool-Requires :
    {S : Type 0} (svc : Services S) (args : Fields) (key : String) (s : S)
    → IsMissing args key
    → All (λ t. Requires t key → IsRefused svc t args s) admin_tools
unfolding handle_admin_tool connection_args endpoint_args secret_args
handle_admin_tool-Requires svc args key s missing = (
  λ r.
      with_args-Fails svc add_connection_tool.name (connection_args svc.quote args)
        (register_connection svc) s (connection_args-Requires svc.quote args key missing r),
  (
    λ r.
        with_args-Fails svc add_endpoint_tool.name (endpoint_args svc.quote args)
          (register_endpoint svc) s (endpoint_args-Requires svc.quote args key missing r),
    (
      λ r.
          with_args-Fails svc register_vault_secret_tool.name (secret_args svc.quote args)
            (register_secret svc) s (secret_args-Requires svc.quote args key missing r),
      tt,
    ),
  ),
)
