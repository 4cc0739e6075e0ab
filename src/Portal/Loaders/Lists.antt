-- ===== src/Portal/Loaders/Lists.antt =====
-- The loaders of the audit log, of the secrets and of the client tokens.
pub mod Tables
use the_black_hole.Prelude.{
  ℕ, String, List, [], ◌∷◌, map, ◌===◌, ◌<>◌, ◌&&◌, if◌then◌else◌, decimal, length, keep_if, join,
}
use the_black_hole.Portal.Types.{Connection, Endpoint, Log, ClientToken, Body, Operations, Reply}
use the_black_hole.Portal.Task.{Task, done, read, catch, ◌>>=◌, ◌>>◌}
use the_black_hole.Portal.Page.{
  set_text, set_html, clear, append_all, show_toast, if_present, set_state, fetch_get, received,
}
use the_black_hole.Portal.Html.{escape_html}
use the_black_hole.Portal.Html.Rows.{
  health_row, connection_card, endpoint_row, log_row, vault_row, token_row,
}
use the_black_hole.Portal.Loaders.Common.{
  with_session, require_ok, json_connections, json_endpoints, json_logs, json_tokens, json_keys,
  json_operations,
}
use the_black_hole.Portal.Loaders.Stats.{mean_latency}
use the_black_hole.Portal.Loaders.Conflicts.{
  connection_of, prefix_of, name_of, resolve_names, clashing, clash_texts,
}

module _ {J : Type 0} where
  unfoldable pub show_logs : List Log → Task J (Unit {0})
  show_logs [] = set_html "logs-table-body" (
      "<tr><td colspan=\"6\" class=\"text-center text-muted\">Audit log is empty. "
      <> "Generate queries from your AI clients to log events.</td></tr>")
  show_logs (l ∷ ls) =
      read λ w. append_all "logs-table-body" (map (log_row w.browser.locale_date) (l ∷ ls))

  -- `loadAuditLogs`
  unfoldable pub load_audit_logs : Task J (Unit {0})
  load_audit_logs = with_session (do
    set_html "logs-table-body"
        "<tr><td colspan=\"6\" class=\"text-muted\">Loading audit entries...</td></tr>"
    catch
        (fetch_get "/api/logs" λ r. received r λ ok body. do
          require_ok ok "Failed to fetch"
          ls ← json_logs body
          set_state (λ s. record s { logs = ls })
          clear "logs-table-body"
          show_logs ls)
        (λ e. set_html "logs-table-body" (
          "<tr><td colspan=\"6\" class=\"text-danger\">Error fetching logs: " <> e
          <> "</td></tr>")))

  unfoldable pub show_keys : List String → Task J (Unit {0})
  show_keys [] = set_html "vault-table-body" (
      "<tr><td colspan=\"2\" class=\"text-center text-muted\">No secrets registered. "
      <> "Put credentials into the vault form to populate.</td></tr>")
  show_keys (k ∷ ks) = append_all "vault-table-body" (map vault_row (k ∷ ks))

  -- `loadVaultSecrets`
  unfoldable pub load_vault_secrets : Task J (Unit {0})
  load_vault_secrets = with_session (
      if_present "vault-table-body" (do
        set_html "vault-table-body"
            "<tr><td colspan=\"2\" class=\"text-muted\">Loading vault secrets...</td></tr>"
        catch
            (fetch_get "/api/vault" λ r. received r λ ok body. do
              require_ok ok "Failed to fetch vault keys"
              ks ← json_keys body
              clear "vault-table-body"
              show_keys ks)
            (λ e. set_html "vault-table-body" (
              "<tr><td colspan=\"2\" class=\"text-danger\">Error loading vault: " <> e
              <> "</td></tr>"))))

  unfoldable pub show_tokens : List ClientToken → Task J (Unit {0})
  show_tokens [] = set_html "tokens-table-body" (
      "<tr><td colspan=\"6\" class=\"text-center text-muted\">"
      <> "No client tokens registered yet.</td></tr>")
  show_tokens (t ∷ ts) = append_all "tokens-table-body" (map token_row (t ∷ ts))

  -- What follows the request of `loadClientTokens`; here alone the message is escaped.
  unfoldable pub client_tokens_failed : String → Task J (Unit {0})
  client_tokens_failed e = set_html "tokens-table-body" (
      "<tr><td colspan=\"6\" class=\"text-center text-danger\">Error: "
      <> escape_html e
      <> "</td></tr>")

  unfoldable pub client_tokens_reply : Reply → Task J (Unit {0})
  client_tokens_reply r = received r λ ok body. do
    require_ok ok "Failed to fetch tokens"
    ts ← json_tokens body
    set_state (λ s. record s { tokens = ts })
    clear "tokens-table-body"
    show_tokens ts

  -- `loadClientTokens`
  unfoldable pub load_client_tokens : Task J (Unit {0})
  unfolding client_tokens_failed client_tokens_reply
  load_client_tokens = with_session (
      if_present "tokens-table-body" (do
        set_html "tokens-table-body" (
            "<tr><td colspan=\"6\" class=\"text-center text-muted\">"
            <> "Loading client tokens...</td></tr>")
        catch (fetch_get "/api/tokens" client_tokens_reply) client_tokens_failed))
