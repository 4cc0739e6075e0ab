-- ===== src/Portal/Dialogs.antt =====
-- The dialogs, the generator of client tokens, the schema buttons and the theme.
pub mod Hex
use the_black_hole.Prelude.{
  ℕ, ◌/◌, ◌%◌, String, List, [], ◌∷◌, Option, none, some, Bool, not, ◌||◌, ◌===◌, ◌<>◌, ◌==◌,
  if◌then◌else◌, has_prefix, is_set, find_first, map,
}
use the_black_hole.Portal.Types.{Connection, Endpoint}
use the_black_hole.Portal.World.{Node}
use the_black_hole.Portal.Task.{done, modify, read, ◌>>◌}
use the_black_hole.Portal.Page.{
  on_element, set_text, show, set_value, set_checked, show_toast, reset_form, with_inner_text,
}
use the_black_hole.Portal.Html.{escape_html}
use the_black_hole.Portal.Router.{Handler}

abbrev pub connection_fields : List String
connection_fields =
    "conn-name" ∷ "conn-desc" ∷ "conn-prefix" ∷ "conn-url" ∷ "conn-auth" ∷ "conn-secret"
    ∷ "conn-enabled" ∷ []

abbrev pub endpoint_fields : List String
endpoint_fields =
    "ep-conn-id" ∷ "ep-tool-name" ∷ "ep-tool-desc" ∷ "ep-path" ∷ "ep-method" ∷ "ep-schema"
    ∷ "ep-template" ∷ []

abbrev pub token_fields : List String
token_fields =
    "token-client-name" ∷ "token-value" ∷ "token-role" ∷ "token-scopes" ∷ "token-enabled" ∷ []

-- The form of a connection is filled with its data.
unfoldable pub fill_connection : Connection → Handler
fill_connection conn = do
  set_value "connection-id" conn.id
  set_value "conn-name" conn.name
  set_value "conn-desc" conn.description
  set_value "conn-prefix" conn.tool_prefix
  set_value "conn-url" conn.base_url
  set_value "conn-auth" conn.auth_type
  set_value "conn-secret" conn.auth_secret_ref
  set_checked "conn-enabled" conn.enabled

unfoldable pub fill_found_connection : Option Connection → Handler
unfolding fill_connection
fill_found_connection none = done tt
fill_found_connection (some conn) = fill_connection conn

-- `openConnectionModal`; the empty id stands for none.
unfoldable pub open_connection_modal : String → Handler
unfolding fill_found_connection
open_connection_modal id = do
  set_text "connection-modal-title"
      (if is_set id then "Edit API Connection" else "Configure API Connection")
  reset_form "connection-form" connection_fields
  if is_set id
      then (read λ w. fill_found_connection (find_first (λ c. c.id === id) w.state.connections))
      else (do set_value "connection-id" ""; set_value "conn-prefix" "")
  show "connection-modal"

unfoldable pub fill_endpoint : Endpoint → Handler
fill_endpoint ep = do
  set_value "endpoint-id" ep.id
  set_value "ep-conn-id" ep.connection_id
  set_value "ep-tool-name" ep.tool_name
  set_value "ep-tool-desc" ep.tool_description
  set_value "ep-path" ep.path
  set_value "ep-method" ep.method
  set_value "ep-schema" ep.parameters_schema
  set_value "ep-template" ep.template

-- An entry of the dropdown of connections.
unfoldable pub connection_option : Connection → String
connection_option c = "<option value=\"" <> c.id <> "\">" <> escape_html c.name <> "</option>"

unfoldable pub fill_found_endpoint : Option Endpoint → Handler
unfolding fill_endpoint
fill_found_endpoint none = done tt
fill_found_endpoint (some ep) = fill_endpoint ep

-- The entries of the dropdown, which the source adds to its markup one at a time.
unfoldable pub connection_options : List Connection → List Node
unfolding connection_option
connection_options conns =
    Node.html "<option value=\"\" disabled selected>Select an API source</option>"
    ∷ map (λ c. Node.html (connection_option c)) conns

-- `openEndpointModal`
unfoldable pub open_endpoint_modal : String → Handler
unfolding fill_found_endpoint connection_options
open_endpoint_modal id = do
  set_text "endpoint-modal-title"
      (if is_set id then "Edit MCP Tool Endpoint" else "Configure MCP Tool Endpoint")
  reset_form "endpoint-form" endpoint_fields
  read λ w.
      on_element "ep-conn-id" (λ e. record e { content = connection_options w.state.connections })
  if is_set id
      then (read λ w. fill_found_endpoint (find_first (λ ep. ep.id === id) w.state.endpoints))
      else set_value "endpoint-id" ""
  show "endpoint-modal"

-- `openTokenModal`
unfoldable pub open_token_modal : Handler
open_token_modal = do reset_form "token-form" token_fields; show "token-modal"

unfoldable pub hex_lower : ℕ → String
hex_lower n =
    if n == 0
    then "0"
    else if n == 1
    then "1"
    else if n == 2
    then "2"
    else if n == 3
    then "3"
    else if n == 4
    then "4"
    else if n == 5
    then "5"
    else if n == 6
    then "6"
    else if n == 7
    then "7"
    else if n == 8
    then "8"
    else if n == 9
    then "9"
    else if n == 10
    then "a"
    else if n == 11
    then "b"
    else if n == 12
    then "c"
    else if n == 13
    then "d"
    else if n == 14
    then "e"
    else "f"

-- `bytes.map(b => b.toString(16).padStart(2, '0')).join('')`
unfoldable pub rand_hex : List ℕ → String
unfolding hex_lower
rand_hex [] = ""
rand_hex (b ∷ bs) = hex_lower (b / 16) <> hex_lower (b % 16) <> rand_hex bs

-- `btn-generate-token-val`, for the bytes that the browser's random generator gives.
unfoldable pub generate_token : List ℕ → Handler
unfolding rand_hex
generate_token bytes = set_value "token-value" ("mcp_client_" <> rand_hex bytes)

-- `triggerDownload`: only a loaded schema is offered; the download itself leaves the page as it is.
unfoldable pub trigger_download : Handler
trigger_download = with_inner_text "openapi-code-block" λ shown.
    if has_prefix shown "Error:" || has_prefix shown "Resolving" || has_prefix shown "Loading"
    then show_toast "Schema not fully loaded yet" "error"
    else show_toast "OpenAPI schema download started" "success"

-- `btn-modal-copy-schema`, for the answer of the clipboard.
unfoldable pub copied : Bool → Handler
copied accepted =
    if accepted
    then show_toast "OpenAPI JSON copied to clipboard" "success"
    else show_toast "Failed to copy text" "error"

-- `theme-toggle-btn`
unfoldable pub toggle_theme : Handler
toggle_theme =
    modify
      (λ w. record w {
        light = not w.light;
        storage = record (w.storage) { theme = some (if w.light then "dark" else "light") };
      })
      (done tt)
