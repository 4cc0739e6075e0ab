-- ===== src/Mcp/Tools.antt =====
-- Which tools there are and which endpoint stands behind a name: `listTools`, `findEndpoint`,
-- `toolDefinitionChanged` and `toolMeta`.
pub mod Listing
use the_black_hole.Prelude.{
  ℕ, String, List, [], ◌∷◌, ◌++◌, Option, none, some, Bool, true, false, not, ◌&&◌, ◌===◌, ◌<>◌,
  ◌==◌, if◌then◌else◌, has_prefix, decimal, ◌≡◌,
}
use the_black_hole.Prelude.Results.{Result, ok, err}
use the_black_hole.Json.{
  Value, null, flag, number, text, array, object, Items, nil, cons, Fields, end, field,
}
use the_black_hole.ToolIntegrity.{Codec, ToolDef, changed}
use the_black_hole.Mcp.Types.{ApiConnection, ApiEndpoint, Tool, Services}
use the_black_hole.Mcp.Scopes.{match_scope}

-- `connMap[id]`, the map filled from the list in its order: a later connection replaces an earlier one.
unfoldable pub conn_of : String → List ApiConnection → Option ApiConnection
conn_of id [] = none
conn_of id (c ∷ cs) = elim (conn_of id cs) [
  | some later ↦ some later
  | none ↦ if c.id === id then some c else none
]

-- The connection of an endpoint, where it exists and is enabled.
unfoldable pub owner : List ApiConnection → ApiEndpoint → Option ApiConnection
unfolding conn_of
owner conns ep = elim (conn_of ep.connection_id conns) [
  | none ↦ none
  | some conn ↦ if conn.enabled then some conn else none
]

-- The name under which an endpoint is exposed.
unfoldable pub resolved_name : ApiConnection → ApiEndpoint → String
resolved_name conn ep =
    if not (conn.tool_prefix === "") then conn.tool_prefix <> ep.tool_name else ep.tool_name

-- `map[string]interface{}{"type": "object", "properties": …}`
abbrev pub object_schema : Fields → Fields → Fields
object_schema properties rest =
    field "type" (text "object") (field "properties" (object properties) rest)

-- `schemaMap`: decoding into a map fails on what is no object, and leaves the map `nil` on a `null`.
unfoldable pub schema_map : Codec → String → Value
schema_map codec schema =
    let fallback = object (object_schema end end) in
    if not (schema === "")
    then elim (codec.parse schema) [
      | some (object fs) ↦ object fs
      | some null ↦ null
      | _ ↦ fallback
    ]
    else fallback

-- `toolMeta`
unfoldable pub tool_meta : ApiEndpoint → Option Fields
unfolding decimal
tool_meta ep =
    if ep.definition_hash === ""
    then none
    else some (
        field "definitionHash" (text ep.definition_hash)
          (if ep.version == 0 then end else field "version" (number (decimal ep.version)) end))

-- The `Tool` of an endpoint.
unfoldable pub endpoint_tool : Codec → ApiConnection → ApiEndpoint → Tool
unfolding resolved_name schema_map tool_meta
endpoint_tool codec conn ep = record {
  name = resolved_name conn ep;
  description = ep.tool_description;
  input_schema = schema_map codec ep.parameters_schema;
  meta = tool_meta ep;
}

-- The loop of `listTools` over the endpoints.
unfoldable pub list_endpoints :
    Codec → (scopes : List String) → List ApiConnection → List ApiEndpoint → List Tool
unfolding owner resolved_name match_scope endpoint_tool
list_endpoints codec scopes conns [] = []
list_endpoints codec scopes conns (ep ∷ eps) =
    let rest = list_endpoints codec scopes conns eps in
    elim (owner conns ep) [
      | none ↦ rest
      | some conn ↦
          if match_scope (resolved_name conn ep) scopes
          then endpoint_tool codec conn ep ∷ rest
          else rest
    ]

-- `map[string]interface{}{"type": type, "description": description}`
abbrev pub property : (type description : String) → Value
property type description =
    object (field "type" (text type) (field "description" (text description) end))

abbrev pub required : List String → Items
required [] = nil
required (key ∷ keys) = cons (text key) (required keys)

abbrev pub add_connection_tool : Tool
add_connection_tool = record {
  name = "admin_add_connection";
  description = "Administratively register a new target API Connection into the Gateway.";
  input_schema = object (
      object_schema
        (field "name" (property "string" "Human name for connection") (
          field "base_url" (property "string" "Base target URL, e.g. https://api.stripe.com") (
            field "auth_type" (property "string" "none, basic, bearer, custom_headers") (
              field "auth_secret_ref" (property "string" "Secret path inside the vault proxy") (
                field "tool_prefix"
                  (property "string" "Optional namespacing prefix prepended to all tools")
                  (field "enabled" (property "boolean" "Active state") end))))))
        (field "required" (array (required ("name" ∷ "base_url" ∷ "auth_type" ∷ []))) end));
  meta = none;
}

abbrev pub add_endpoint_tool : Tool
add_endpoint_tool = record {
  name = "admin_add_endpoint";
  description = "Administratively expose a target HTTP endpoint path as an MCP tool.";
  input_schema = object (
      object_schema
        (field "connection_id" (property "string" "Target API connection ID UUID") (
          field "tool_name"
            (property "string" "Exposed tool method identifier, e.g. get_billing_records")
            (field "tool_description"
              (property "string" "Description explaining when the LLM should invoke this tool")
              (field "path" (property "string" "Endpoint URI path, e.g. /v1/records/{{id}}") (
                field "method" (property "string" "GET, POST, PUT, DELETE") (
                  field "parameters_schema"
                    (property "string" "JSON Schema string defining expected variables")
                    (field "template"
                      (property "string" "Optional JSON post template body mapping parameters")
                      end)))))))
        (field "required"
          (array (
            required ("connection_id" ∷ "tool_name" ∷ "tool_description" ∷ "path" ∷ "method" ∷ [])))
          end));
  meta = none;
}

abbrev pub register_vault_secret_tool : Tool
register_vault_secret_tool = record {
  name = "admin_register_vault_secret";
  description =
      "Administratively insert secure private credentials directly into the integrated Vault.";
  input_schema = object (
      object_schema
        (field "key" (property "string" "Secret lookup path reference")
          (field "value" (property "string" "Plain private credential or JSON header map") end))
        (field "required" (array (required ("key" ∷ "value" ∷ []))) end));
  meta = none;
}

-- The tools of `listTools` that no endpoint backs, and those of them that the scopes allow.
abbrev pub admin_tools : List Tool
admin_tools = add_connection_tool ∷ add_endpoint_tool ∷ register_vault_secret_tool ∷ []

unfoldable pub allowed_tools : (scopes : List String) → List Tool → List Tool
unfolding match_scope
allowed_tools scopes [] = []
allowed_tools scopes (t ∷ ts) =
    let rest = allowed_tools scopes ts in if match_scope t.name scopes then t ∷ rest else rest

-- `listTools`
unfoldable pub list_tools :
    {S : Type 0} → Services S → (role : String) (scopes : List String) → S → Result (List Tool)
unfolding list_endpoints allowed_tools
list_tools svc role scopes s = elim (svc.get_all_endpoints s) [
  | err e ↦ err e
  | ok eps ↦ elim (svc.get_connections s) [
    | err e ↦ err e
    | ok conns ↦ ok (
        list_endpoints svc.codec scopes conns eps
        ++ (if role === "admin" then allowed_tools scopes admin_tools else []))
  ]
]

-- The loop of `findEndpoint`.
unfoldable pub find_named :
    String → List ApiConnection → List ApiEndpoint → Option (ApiEndpoint × ApiConnection)
unfolding owner resolved_name
find_named name conns [] = none
find_named name conns (ep ∷ eps) =
    let rest = find_named name conns eps in
    elim (owner conns ep) [
      | none ↦ rest
      | some conn ↦ if resolved_name conn ep === name then some (ep, conn) else rest
    ]

-- `findEndpoint`
unfoldable pub find_endpoint :
    {S : Type 0} → Services S → String → S → Result (Option (ApiEndpoint × ApiConnection))
unfolding find_named
find_endpoint svc name s = elim (svc.get_all_endpoints s) [
  | err e ↦ err ("failed to load endpoints: " <> e)
  | ok eps ↦ elim (svc.get_connections s) [
    | err e ↦ err ("failed to load connections: " <> e)
    | ok conns ↦ ok (find_named name conns eps)
  ]
]

-- The definition of an endpoint, as it is hashed under its exposed name.
unfoldable pub definition_of : String → ApiEndpoint → ToolDef
definition_of name ep = record {
  name = name;
  description = ep.tool_description;
  method = ep.method;
  path = ep.path;
  parameters_schema = ep.parameters_schema;
}

-- `toolDefinitionChanged`
unfoldable pub tool_definition_changed : {S : Type 0} → Services S → String → S → Result Bool
unfolding find_endpoint definition_of changed
tool_definition_changed svc name s =
    if has_prefix name "admin_" then ok false else elim (find_endpoint svc name s) [
      | err e ↦ err e
      | ok none ↦ ok false
      | ok (some (ep, _)) ↦ ok (changed svc.codec ep.definition_hash (definition_of name ep))
    ]
