-- ===== src/Portal/Keeps/Loaders.antt =====
-- The loaders keep what the page's operations keep, and send nothing but `GET` requests with the
-- session's token.
use the_black_hole.Prelude.{String, List, [], ◌∷◌, map}
use the_black_hole.Portal.Types.{
  Connection, Endpoint, Log, ClientToken, Operations, Settings, Health, Request, Body,
}
use the_black_hole.Portal.World.{World}
use the_black_hole.Portal.Html.Rows.{health_row}
use the_black_hole.Portal.Page.{set_state, set_html, append_all}
use the_black_hole.Portal.Keeps.{Keeps, Keeps-done, Keeps-read, Keeps-bind}
use the_black_hole.Portal.Keeps.Page.{
  Closed, Keeps-set_state, keeps_page, Keeps-append_all, Keeps-set_html, Keeps-if_present,
  Keeps-clear,
}
use the_black_hole.Portal.Loaders.Views.{
  show_counts, show_health, show_operations, load_dashboard_stats, show_connections,
  load_connections, report_conflicts, show_endpoints, preload, preload_connections, load_endpoints,
}
use the_black_hole.Portal.Loaders.Lists.{
  show_logs, load_audit_logs, show_keys, load_vault_secrets, show_tokens, load_client_tokens,
}
use the_black_hole.Portal.Loaders.Settings.{show_settings, load_settings_config, load_openapi_docs}
use the_black_hole.Portal.Loaders.Telemetry.{
  render_latency_chart, render_frequency_chart, show_metrics, show_log_numbers, load_telemetry,
}
use the_black_hole.Portal.Loaders.Names.{
  Loader, dashboard_stats, audit_logs, vault_secrets, settings_config, openapi_docs, client_tokens,
  telemetry, body_of,
}
use the_black_hole.Portal.Keeps.Bodies.{keeps_bodies}

module _ {I : World → Type 0} {R : World → Request → Type 0} (c : Closed I R) {J : Type 0} where
  Keeps-set_connections :
      (xs : List Connection) (w : World)
      → Keeps I R {J = J} (set_state (λ s. record s { connections = xs })) w
  Keeps-set_connections xs w = Keeps-set_state c _ w (λ v i. c.on_lists v _ _ _ _ i)

  Keeps-set_endpoints :
      (xs : List Endpoint) (w : World)
      → Keeps I R {J = J} (set_state (λ s. record s { endpoints = xs })) w
  Keeps-set_endpoints xs w = Keeps-set_state c _ w (λ v i. c.on_lists v _ _ _ _ i)

  Keeps-set_logs :
      (xs : List Log) (w : World) → Keeps I R {J = J} (set_state (λ s. record s { logs = xs })) w
  Keeps-set_logs xs w = Keeps-set_state c _ w (λ v i. c.on_lists v _ _ _ _ i)

  Keeps-set_tokens :
      (xs : List ClientToken) (w : World)
      → Keeps I R {J = J} (set_state (λ s. record s { tokens = xs })) w
  Keeps-set_tokens xs w = Keeps-set_state c _ w (λ v i. c.on_lists v _ _ _ _ i)

  Keeps-show_tokens : (xs : List ClientToken) (w : World) → Keeps I R (show_tokens {J = J} xs) w
  unfolding show_tokens
  Keeps-show_tokens [] w = search keeps_page
  Keeps-show_tokens (x ∷ xs) w = search (keeps_page)

  Keeps-show_keys : (xs : List String) (w : World) → Keeps I R (show_keys {J = J} xs) w
  unfolding show_keys
  Keeps-show_keys [] w = search keeps_page
  Keeps-show_keys (x ∷ xs) w = search (keeps_page)

  Keeps-show_logs : (xs : List Log) (w : World) → Keeps I R (show_logs {J = J} xs) w
  unfolding show_logs
  Keeps-show_logs [] w = search keeps_page
  Keeps-show_logs (x ∷ xs) w = search (keeps_page)

  Keeps-report_conflicts :
      (cs : List (String × List String)) (w : World) → Keeps I R (report_conflicts {J = J} cs) w
  unfolding report_conflicts
  Keeps-report_conflicts [] w = Keeps-done tt w
  Keeps-report_conflicts (x ∷ xs) w = search keeps_page

  Keeps-show_endpoints : (xs : List Endpoint) (w : World) → Keeps I R (show_endpoints {J = J} xs) w
  unfolding show_endpoints
  Keeps-show_endpoints [] w = search keeps_page
  Keeps-show_endpoints (x ∷ xs) w = search (keeps_page, Keeps-report_conflicts)

  Keeps-show_connections :
      (xs : List Connection) (w : World) → Keeps I R (show_connections {J = J} xs) w
  unfolding show_connections
  Keeps-show_connections [] w = search keeps_page
  Keeps-show_connections (x ∷ xs) w = search (keeps_page)

  Keeps-load_client_tokens : (w : World) → Keeps I R (load_client_tokens {J = J}) w
  unfolding load_client_tokens
  Keeps-load_client_tokens w =
      search (keeps_page, keeps_bodies, Keeps-set_tokens, Keeps-show_tokens) depth 20

  Keeps-load_vault_secrets : (w : World) → Keeps I R (load_vault_secrets {J = J}) w
  unfolding load_vault_secrets
  Keeps-load_vault_secrets w = search (keeps_page, keeps_bodies, Keeps-show_keys) depth 20

  Keeps-load_audit_logs : (w : World) → Keeps I R (load_audit_logs {J = J}) w
  unfolding load_audit_logs
  Keeps-load_audit_logs w =
      search (keeps_page, keeps_bodies, Keeps-set_logs, Keeps-show_logs) depth 20

  Keeps-load_connections : (w : World) → Keeps I R (load_connections {J = J}) w
  unfolding load_connections
  Keeps-load_connections w =
      search (keeps_page, keeps_bodies, Keeps-set_connections, Keeps-show_connections) depth 20

  Keeps-preload : (cs : List Connection) (w : World) → Keeps I R (preload {J = J} cs) w
  unfolding preload
  Keeps-preload [] w = search (keeps_page, keeps_bodies, Keeps-set_connections) depth 20
  Keeps-preload (x ∷ xs) w = Keeps-done tt w

  Keeps-preload_connections : (w : World) → Keeps I R (preload_connections {J = J}) w
  unfolding preload_connections
  Keeps-preload_connections w = Keeps-read _ w (Keeps-preload w.state.connections w)

  Keeps-load_endpoints : (w : World) → Keeps I R (load_endpoints {J = J}) w
  unfolding load_endpoints
  Keeps-load_endpoints w =
      search
        (
          keeps_page, keeps_bodies, Keeps-set_endpoints, Keeps-show_endpoints,
          Keeps-preload_connections,
        )
        depth 20

  Keeps-show_counts : (b1 b2 b3 : Body) (w : World) → Keeps I R (show_counts {J = J} b1 b2 b3) w
  unfolding show_counts
  Keeps-show_counts b1 b2 b3 w =
      search (keeps_page, keeps_bodies, Keeps-set_connections, Keeps-set_endpoints, Keeps-set_logs)
        depth 30

  Keeps-show_health : (op : Operations) (w : World) → Keeps I R (show_health {J = J} op) w
  unfolding show_health
  Keeps-show_health op w =
      Keeps-if_present c _ _ w
        (Keeps-bind _ _ w (Keeps-clear c _ w) λ _ v. go op.connections_health v)
    where
      go :
          (hs : List Health) (v : World)
          → Keeps I R {J = J}
              (elim hs [
                | [] ↦
                    set_html "config-api-health-body"
                      "<tr><td colspan=\"4\" class=\"text-muted text-center\">No active API connections.</td></tr>"
                | h ∷ rest ↦ append_all "config-api-health-body" (map health_row (h ∷ rest))
              ])
              v
      go [] v = Keeps-set_html c _ _ v
      go (h ∷ rest) v = Keeps-append_all c _ _ v

  Keeps-show_operations : (op : Operations) (w : World) → Keeps I R (show_operations {J = J} op) w
  unfolding show_operations
  Keeps-show_operations op w = search (keeps_page, keeps_bodies, Keeps-show_health) depth 20

  Keeps-load_dashboard_stats : (w : World) → Keeps I R (load_dashboard_stats {J = J}) w
  unfolding load_dashboard_stats
  Keeps-load_dashboard_stats w =
      search (keeps_page, keeps_bodies, Keeps-show_counts, Keeps-show_operations) depth 30

  Keeps-show_settings : (s : Settings) (w : World) → Keeps I R (show_settings {J = J} s) w
  unfolding show_settings
  Keeps-show_settings s w = search (keeps_page, keeps_bodies) depth 30

  Keeps-load_settings_config : (w : World) → Keeps I R (load_settings_config {J = J}) w
  unfolding load_settings_config
  Keeps-load_settings_config w = search (keeps_page, keeps_bodies, Keeps-show_settings) depth 20

  Keeps-load_openapi_docs : (w : World) → Keeps I R (load_openapi_docs {J = J}) w
  unfolding load_openapi_docs
  Keeps-load_openapi_docs w = search (keeps_page, keeps_bodies) depth 20

  Keeps-render_latency_chart :
      (ls : List Log) (w : World) → Keeps I R (render_latency_chart {J = J} ls) w
  unfolding render_latency_chart
  Keeps-render_latency_chart [] w = search keeps_page
  Keeps-render_latency_chart (l ∷ ls) w = search keeps_page

  Keeps-render_frequency_chart :
      (ls : List Log) (w : World) → Keeps I R (render_frequency_chart {J = J} ls) w
  unfolding render_frequency_chart
  Keeps-render_frequency_chart [] w = search keeps_page
  Keeps-render_frequency_chart (l ∷ ls) w = search keeps_page

  Keeps-show_metrics : (s : String) (w : World) → Keeps I R (show_metrics {J = J} s) w
  unfolding show_metrics
  Keeps-show_metrics s w = search (keeps_page, keeps_bodies) depth 20

  Keeps-show_log_numbers : (ls : List Log) (w : World) → Keeps I R (show_log_numbers {J = J} ls) w
  unfolding show_log_numbers
  Keeps-show_log_numbers ls w =
      search (keeps_page, keeps_bodies, Keeps-render_latency_chart, Keeps-render_frequency_chart)
        depth 20

  Keeps-load_telemetry : (w : World) → Keeps I R (load_telemetry {J = J}) w
  unfolding load_telemetry
  Keeps-load_telemetry w =
      search (keeps_page, keeps_bodies, Keeps-show_metrics, Keeps-show_log_numbers) depth 30

  pub Keeps-body_of : (l : Loader) (w : World) → Keeps I R (body_of {J = J} l) w
  unfolding body_of
  Keeps-body_of dashboard_stats = Keeps-load_dashboard_stats
  Keeps-body_of Loader.connections = Keeps-load_connections
  Keeps-body_of Loader.endpoints = Keeps-load_endpoints
  Keeps-body_of audit_logs = Keeps-load_audit_logs
  Keeps-body_of vault_secrets = Keeps-load_vault_secrets
  Keeps-body_of settings_config = Keeps-load_settings_config
  Keeps-body_of openapi_docs = Keeps-load_openapi_docs
  Keeps-body_of client_tokens = Keeps-load_client_tokens
  Keeps-body_of telemetry = Keeps-load_telemetry
