-- ===== src/Portal/Loaders/Views.antt =====
-- The loaders of the dashboard, of the tables and of the cards.
use the_black_hole.Prelude.{
  ℕ, String, List, [], ◌∷◌, map, ◌===◌, ◌<>◌, ◌&&◌, if◌then◌else◌, decimal, length, keep_if, join,
}
use the_black_hole.Portal.Types.{Connection, Endpoint, Log, Body, Operations}
use the_black_hole.Portal.Task.{Task, done, read, catch, ◌>>=◌, ◌>>◌}
use the_black_hole.Portal.Page.{
  set_text, set_html, clear, append_all, show_toast, if_present, set_state, fetch_get, received,
}
use the_black_hole.Portal.Html.Rows.{health_row, connection_card, endpoint_row}
use the_black_hole.Portal.Loaders.Common.{
  with_session, require_ok, json_connections, json_endpoints, json_logs, json_operations,
}
use the_black_hole.Portal.Loaders.Stats.{mean_latency}
use the_black_hole.Portal.Loaders.Conflicts.{
  connection_of, prefix_of, name_of, resolve_names, clashing, clash_texts,
}

-- `stat-latency`
unfoldable pub latency_text : List Log → String
latency_text [] = "0ms"
latency_text (l ∷ ls) = decimal (mean_latency (l ∷ ls)) <> "ms"

-- `STATE.endpoints.filter(e => e.connection_id === conn.id).length`
unfoldable pub tool_count : List Endpoint → Connection → ℕ
tool_count eps conn = length (keep_if (λ e. e.connection_id === conn.id) eps)

abbrev pub no_connections : String
no_connections =
    "\n"
    <> "                <div class=\"card glass text-center\" style=\"grid-column: 1 / -1;\">\n"
    <> "                    <h3>No API connections configured</h3>\n"
    <> "                    <p class=\"text-muted mt-2\">Connect your internal databases or web "
    <> "services to get started.</p>\n" <> "                </div>\n" <> "            "

-- The row of an endpoint, with the name and the prefix of its connection.
unfoldable pub endpoint_row_of : List Connection → Endpoint → String
endpoint_row_of conns ep =
    let conn = connection_of conns ep in
    endpoint_row (prefix_of conn) (name_of "Unknown API" conn) ep

-- The text of the toast about tool names that several connections offer.
unfoldable pub conflict_message : List (String × List String) → String
conflict_message clashes =
    "Namespace Conflict Detected: "
    <> join "; " (clash_texts clashes)
    <> ". Set unique tool prefix names in connections configs."

module _ {J : Type 0} where
  -- The three lists, counted, and the mean latency.
  unfoldable pub show_counts : Body → Body → Body → Task J (Unit {0})
  show_counts conns eps audit = do
    cs ← json_connections conns
    set_state (λ s. record s { connections = cs })
    es ← json_endpoints eps
    set_state (λ s. record s { endpoints = es })
    ls ← json_logs audit
    set_state (λ s. record s { logs = ls })
    set_text "stat-connections" (decimal (length cs))
    set_text "stat-tools" (decimal (length es))
    set_text "stat-requests" (decimal (length ls))
    set_text "stat-latency" (latency_text ls)

  -- `tbody.innerHTML = ''`, then a row for each connection, or the note that there is none.
  unfoldable pub show_health : Operations → Task J (Unit {0})
  show_health op = if_present "config-api-health-body" (do
    clear "config-api-health-body"
    elim op.connections_health [
      | [] ↦
          set_html "config-api-health-body"
            "<tr><td colspan=\"4\" class=\"text-muted text-center\">No active API connections.</td></tr>"
      | h ∷ hs ↦ append_all "config-api-health-body" (map health_row (h ∷ hs))
    ])

  unfoldable pub show_operations : Operations → Task J (Unit {0})
  show_operations op = do
    if_present "config-active-sessions"
        (set_text "config-active-sessions" (decimal op.connected_users <> " Connected"))
    if_present "config-active-queries"
        (set_text "config-active-queries" (decimal op.active_queries <> " Running"))
    show_health op

  -- `loadDashboardStats`; its `catch` only writes to the console.
  unfoldable pub load_dashboard_stats : Task J (Unit {0})
  load_dashboard_stats = with_session (
      catch
        (fetch_get "/api/connections" λ r1. received r1 λ ok1 conns.
          fetch_get "/api/endpoints" λ r2. received r2 λ ok2 eps. fetch_get "/api/logs" λ r3.
            received r3 λ ok3 audit. fetch_get "/api/operational-stats" λ r4. received r4 λ ok4 ops.
              do
                if ok1 && ok2 && ok3 then show_counts conns eps audit else done tt
                if ok4 then (json_operations ops >>= show_operations) else done tt)
        (λ e. done tt))

  -- One card for each connection, with the number of its tools.
  unfoldable pub show_connections : List Connection → Task J (Unit {0})
  show_connections [] = set_html "connections-grid" no_connections
  show_connections (c ∷ cs) = read λ w.
      append_all "connections-grid"
        (map (λ conn. connection_card (tool_count w.state.endpoints conn) conn) (c ∷ cs))

  -- `loadConnections`
  unfoldable pub load_connections : Task J (Unit {0})
  load_connections = with_session (do
    set_html "connections-grid" "<p class=\"text-muted\">Loading configured API connections...</p>"
    catch
        (fetch_get "/api/connections" λ r. received r λ ok body. do
          require_ok ok "Failed to fetch"
          conns ← json_connections body
          set_state (λ s. record s { connections = conns })
          clear "connections-grid"
          show_connections conns)
        (λ e.
          set_html "connections-grid"
            ("<p class=\"text-danger\">Error loading API connections: " <> e <> "</p>")))

  -- The audit at the end of `loadEndpoints`.
  unfoldable pub report_conflicts : List (String × List String) → Task J (Unit {0})
  report_conflicts [] = done tt
  report_conflicts (c ∷ cs) = show_toast (conflict_message (c ∷ cs)) "error"

  -- The rows and the audit. Both read `STATE.connections`, which no other call changes meanwhile.
  unfoldable pub show_endpoints : List Endpoint → Task J (Unit {0})
  show_endpoints [] = set_html "endpoints-table-body" (
      "<tr><td colspan=\"6\" class=\"text-center text-muted\">No MCP tools defined. "
      <> "Add a tool to link a route to LLM queries.</td></tr>")
  show_endpoints (ep ∷ eps) = read λ w. do
    append_all "endpoints-table-body" (map (endpoint_row_of w.state.connections) (ep ∷ eps))
    report_conflicts (clashing (resolve_names w.state.connections (ep ∷ eps) []))

  -- The connections are loaded first where there is none; its `catch` only writes to the console.
  unfoldable pub preload : List Connection → Task J (Unit {0})
  preload [] =
      catch
        (fetch_get "/api/connections" λ r. received r λ ok body.
          if ok
          then (json_connections body >>= λ conns.
              set_state (λ s. record s { connections = conns }))
          else done tt)
        (λ e. done tt)
  preload (c ∷ cs) = done tt

  unfoldable pub preload_connections : Task J (Unit {0})
  preload_connections = read λ w. preload w.state.connections

  -- `loadEndpoints`
  unfoldable pub load_endpoints : Task J (Unit {0})
  load_endpoints = with_session (do
    set_html "endpoints-table-body"
        "<tr><td colspan=\"6\" class=\"text-muted\">Loading endpoints mapping...</td></tr>"
    preload_connections
    catch
        (fetch_get "/api/endpoints" λ r. received r λ ok body. do
          require_ok ok "Failed to fetch"
          eps ← json_endpoints body
          set_state (λ s. record s { endpoints = eps })
          clear "endpoints-table-body"
          show_endpoints eps)
        (λ e. set_html "endpoints-table-body" (
          "<tr><td colspan=\"6\" class=\"text-danger\">Error loading endpoints: " <> e
          <> "</td></tr>")))
