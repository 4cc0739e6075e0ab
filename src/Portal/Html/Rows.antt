-- ===== src/Portal/Html/Rows.antt =====
-- The markup of the cards and table rows, as the template literals of app.js write it.
pub mod Markup
use the_black_hole.Prelude.{
  ℕ, String, ◌===◌, ◌<>◌, if◌then◌else◌, is_set, or_else, decimal, has_prefix,
}
use the_black_hole.Portal.Types.{Connection, Endpoint, Log, ClientToken, Health}
use the_black_hole.Portal.Html.{escape_html}

-- `isOK`, `isDisabled` and what they choose.
unfoldable pub health_style : String → String
health_style status =
    if has_prefix status "OK"
    then "color: var(--success); font-weight: 500;"
    else if status === "DISABLED"
    then "color: var(--text-muted);"
    else "color: var(--danger); font-weight: 500;"

unfoldable pub health_latency : Health → String
unfolding decimal
health_latency h = if h.status === "DISABLED" then "N/A" else decimal h.latency_ms <> "ms"

-- A row of the health table on the dashboard.
unfoldable pub health_row : Health → String
unfolding escape_html health_style health_latency
health_row h =
    "\n"
    <> "                            <td><strong>"
    <> escape_html h.name
    <> "</strong></td>\n"
    <> "                            <td><code style=\"font-size: 0.8rem;\">"
    <> escape_html h.url
    <> "</code></td>\n"
    <> "                            <td><span style=\""
    <> health_style h.status
    <> "\">"
    <> escape_html h.status
    <> "</span></td>\n"
    <> "                            <td class=\"text-secondary\">"
    <> health_latency h
    <> "</td>\n"
    <> "                        "

-- The card of a connection.
unfoldable pub connection_card : ℕ → Connection → String
unfolding escape_html decimal
connection_card tool_count conn =
    "\n"
    <> "                <div>\n"
    <> "                    <div class=\"conn-card-header\">\n"
    <> "                        <h3>"
    <> escape_html conn.name
    <> "</h3>\n"
    <> "                        <span class=\"badge-status "
    <> (if conn.enabled then "active" else "disabled")
    <> "\">\n"
    <> "                            "
    <> (if conn.enabled then "Enabled" else "Disabled")
    <> "\n"
    <> "                        </span>\n"
    <> "                    </div>\n"
    <> "                    <p>"
    <> escape_html (or_else conn.description "No description provided")
    <> "</p>\n"
    <> "                    <div class=\"mt-4\">\n"
    <> "                        <span class=\"conn-url-badge\">"
    <> escape_html conn.base_url
    <> "</span>\n"
    <> "                    </div>\n"
    <> "                </div>\n"
    <> "                <div>\n"
    <> "                    <div class=\"flex-justify mt-4\">\n"
    <> "                        <span class=\"badge\">"
    <> decimal tool_count
    <> " MCP Tools</span>\n"
    <> "                        <div class=\"conn-actions\">\n"
    <> "                            <button class=\"btn-secondary btn-edit-conn\" data-i"
    <> "d=\""
    <> conn.id
    <> "\">Edit</button>\n"
    <> "                            <button class=\"btn-danger btn-delete-conn\" data-id"
    <> "=\""
    <> conn.id
    <> "\">Delete</button>\n"
    <> "                        </div>\n"
    <> "                    </div>\n"
    <> "                </div>\n"
    <> "            "

-- The name under which a connection's tool is offered: `prefix ? `${prefix}${name}` : name`.
unfoldable pub resolved_name : String → String → String
resolved_name prefix name = if is_set prefix then prefix <> name else name

-- Where the tool has a prefix, its name without it.
unfoldable pub raw_name : String → String → String
unfolding escape_html
raw_name prefix name =
    if is_set prefix
    then "<br><small class=\"text-muted\" style=\"font-size:0.75rem;\">(raw: "
      <> escape_html name
      <> ")</small>"
    else ""

-- The row of an endpoint.
unfoldable pub endpoint_row : (prefix connection_name : String) → Endpoint → String
unfolding escape_html resolved_name raw_name
endpoint_row prefix connection_name ep =
    "\n"
    <> "                <td>\n"
    <> "                    <strong>"
    <> escape_html (resolved_name prefix ep.tool_name)
    <> "</strong>\n"
    <> "                    "
    <> raw_name prefix ep.tool_name
    <> "\n"
    <> "                </td>\n"
    <> "                <td>"
    <> escape_html connection_name
    <> "</td>\n"
    <> "                <td><code>"
    <> escape_html ep.path
    <> "</code></td>\n"
    <> "                <td><span class=\"badge\">"
    <> escape_html ep.method
    <> "</span></td>\n"
    <> "                <td><span class=\"text-secondary\">"
    <> escape_html ep.tool_description
    <> "</span></td>\n"
    <> "                <td>\n"
    <> "                    <div style=\"display: flex; gap: 0.5rem;\">\n"
    <> "                        <button class=\"btn-secondary btn-edit-ep\" data-id=\""
    <> ep.id
    <> "\">Edit</button>\n"
    <> "                        <button class=\"btn-danger btn-delete-ep\" data-id=\""
    <> ep.id
    <> "\">Delete</button>\n"
    <> "                    </div>\n"
    <> "                </td>\n"
    <> "            "

unfoldable pub error_snippet : String → String
unfolding escape_html
error_snippet message =
    if is_set message
    then "<code class=\"text-danger\">" <> escape_html message <> "</code>"
    else "<span class=\"text-muted\">-</span>"

-- The row of an audit entry.
unfoldable pub log_row : (String → String) → Log → String
unfolding escape_html decimal error_snippet
log_row locale_date log =
    "\n"
    <> "                <td>"
    <> locale_date log.timestamp
    <> "</td>\n"
    <> "                <td><code>"
    <> escape_html log.client_identity
    <> "</code></td>\n"
    <> "                <td><strong>"
    <> escape_html log.tool_name
    <> "</strong></td>\n"
    <> "                <td><span class=\""
    <> (if log.status === "success" then "badge-status active" else "badge-status disabled")
    <> "\">"
    <> log.status
    <> "</span></td>\n"
    <> "                <td><code>"
    <> decimal log.duration_ms
    <> "ms</code></td>\n"
    <> "                <td>"
    <> error_snippet log.error_message
    <> "</td>\n"
    <> "            "

-- The row of a secret.
unfoldable pub vault_row : String → String
unfolding escape_html
vault_row key =
    "\n"
    <> "                <td><code>"
    <> escape_html key
    <> "</code></td>\n"
    <> "                <td>\n"
    <> "                    <button class=\"btn-danger btn-delete-secret\" data-key=\""
    <> escape_html key
    <> "\">Delete</button>\n"
    <> "                </td>\n"
    <> "            "

-- The row of a client token.
unfoldable pub token_row : ClientToken → String
unfolding escape_html
token_row t =
    "\n"
    <> "                <td><strong>"
    <> escape_html t.client_name
    <> "</strong></td>\n"
    <> "                <td><code style=\"background: hsla(0,0%,100%,0.08); padding: 0."
    <> "2rem 0.4rem; border-radius: 4px;\">"
    <> escape_html t.token
    <> "</code></td>\n"
    <> "                <td><span class=\"badge "
    <> (if t.client_role === "admin" then "" else "badge-disabled")
    <> "\">"
    <> escape_html t.client_role
    <> "</span></td>\n"
    <> "                <td><code>"
    <> escape_html (or_else t.scopes "*")
    <> "</code></td>\n"
    <> "                <td>\n"
    <> "                    <span class=\"badge-status "
    <> (if t.enabled then "active" else "disabled")
    <> "\">\n"
    <> "                        "
    <> (if t.enabled then "Active" else "Disabled")
    <> "\n"
    <> "                    </span>\n"
    <> "                </td>\n"
    <> "                <td>\n"
    <> "                    <button class=\"btn-icon text-danger\" onclick=\"deleteClient"
    <> "Token('"
    <> escape_html t.token
    <> "')\">Delete</button>\n"
    <> "                </td>\n"
    <> "            "
