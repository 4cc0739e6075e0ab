-- ===== src/Mcp/Admin.antt =====
-- The tools that manage the gateway: `requireStringArg`, `optionalStringArg`, `handleAdminTool`.
pub mod Required
use the_black_hole.Prelude.{
  String, List, [], ◌∷◌, Option, none, some, Bool, true, false, ◌===◌, ◌<>◌, if◌then◌else◌, is_set,
  ◌≡◌,
}
use the_black_hole.Prelude.Results.{Result, ok, err, ◌>>=◌}
use the_black_hole.Json.{Value, flag, text, Fields, lookup}
use the_black_hole.Mcp.Types.{ApiConnection, ApiEndpoint, Services}

-- `requireStringArg`
unfoldable pub require_string_arg : (quote : String → String) → Fields → String → Result String
require_string_arg quote args key =
    let invalid = err ("missing or invalid required argument " <> quote key) in
    elim (lookup key args) [ some (text v) ↦ if v === "" then invalid else ok v | _ ↦ invalid ]

-- `optionalStringArg`
unfoldable pub optional_string_arg : Fields → String → String
optional_string_arg args key = elim (lookup key args) [ some (text v) ↦ v | _ ↦ "" ]

-- `conn.Enabled`
unfoldable pub enabled_arg : Fields → Bool
enabled_arg args = elim (lookup "enabled" args) [ some (flag b) ↦ b | _ ↦ true ]

-- `fmt.Errorf(context + ": %w", err)`
abbrev pub within {ℓ} : {A : Type ℓ} → String → Result A → Result A
within context (ok a) = ok a
within context (err e) = err (context <> ": " <> e)

-- The connection that the arguments describe, which has no id yet.
unfoldable pub connection_args : (quote : String → String) → Fields → Result ApiConnection
unfolding require_string_arg optional_string_arg enabled_arg
connection_args quote args = do
  conn_name ← require_string_arg quote args "name"
  base_url ← require_string_arg quote args "base_url"
  auth_type ← require_string_arg quote args "auth_type"
  ok (record {
    id = "";
    name = conn_name;
    description = "";
    base_url = base_url;
    auth_type = auth_type;
    auth_secret_ref = optional_string_arg args "auth_secret_ref";
    enabled = enabled_arg args;
    tool_prefix = optional_string_arg args "tool_prefix";
  })

-- The endpoint that the arguments describe, which has no id yet.
unfoldable pub endpoint_args : (quote : String → String) → Fields → Result ApiEndpoint
unfolding require_string_arg optional_string_arg
endpoint_args quote args = do
  connection_id ← require_string_arg quote args "connection_id"
  tool_name ← require_string_arg quote args "tool_name"
  tool_description ← require_string_arg quote args "tool_description"
  path ← require_string_arg quote args "path"
  method ← require_string_arg quote args "method"
  ok (record {
    id = "";
    connection_id = connection_id;
    tool_name = tool_name;
    tool_description = tool_description;
    path = path;
    method = method;
    parameters_schema = optional_string_arg args "parameters_schema";
    template = optional_string_arg args "template";
    definition_hash = "";
    version = 0;
  })

-- The key and the value that the arguments name.
unfoldable pub secret_args : (quote : String → String) → Fields → Result (String × String)
unfolding require_string_arg
secret_args quote args = do
  key ← require_string_arg quote args "key"
  val ← require_string_arg quote args "value"
  ok (key, val)

-- The message of a call to the store, which failed or gave nothing.
abbrev pub report : (failure success : String) → Result (Unit {0}) → Result String
report failure success (ok _) = ok success
report failure success (err e) = err (failure <> ": " <> e)

module _ {S : Type 0} (svc : Services S) where
  unfoldable pub register_connection : ApiConnection → S → S × Result String
  register_connection conn s =
      let (s1, id) = svc.new_uuid s in
      let (s2, saved) = svc.save_connection (record conn { id = id }) s1 in
      (
        s2,
        report "failed to register connection"
            ("Successfully registered connection " <> svc.quote conn.name <> ". ID: " <> id) saved,
      )

  unfoldable pub register_endpoint : ApiEndpoint → S → S × Result String
  register_endpoint ep s =
      let (s1, id) = svc.new_uuid s in
      let (s2, saved) = svc.save_endpoint (record ep { id = id }) s1 in
      (
        s2,
        report "failed to register tool endpoint"
            ("Successfully registered tool " <> svc.quote ep.tool_name <> ". ID: " <> id) saved,
      )

  unfoldable pub register_secret : String × String → S → S × Result String
  register_secret (key, val) s =
      let (s1, saved) = svc.set_secret key val s in
      (
        s1,
        report "failed to register vault secret"
            ("Successfully stored secret reference " <> svc.quote key) saved,
      )

  -- Goes on with arguments that are right, and hands on what is wrong with others.
  abbrev pub with_args {ℓ} :
      {A : Type ℓ} → Result A → (A → S → S × Result String) → S → S × Result String
  with_args (ok a) go s = go a s
  with_args (err e) go s = (s, err e)

  -- `handleAdminTool`
  unfoldable pub handle_admin_tool : (name : String) → Fields → S → S × Result String
  unfolding connection_args endpoint_args secret_args register_connection register_endpoint
      register_secret
  handle_admin_tool name args s =
      if name === "admin_add_connection"
      then with_args (within name (connection_args svc.quote args)) register_connection s
      else if name === "admin_add_endpoint"
      then with_args (within name (endpoint_args svc.quote args)) register_endpoint s
      else if name === "admin_register_vault_secret"
      then with_args (within name (secret_args svc.quote args)) register_secret s
      else (s, err ("unknown admin management tool " <> svc.quote name))
