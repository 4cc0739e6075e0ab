-- ===== src/Portal/Loaders/Settings.antt =====
-- The loaders of the settings page: the configuration and the API's own description.
use the_black_hole.Prelude.{String, ◌<>◌, if◌then◌else◌, is_set, or_else}
use the_black_hole.Portal.Types.{Settings}
use the_black_hole.Portal.Task.{Task, read, catch, ◌>>=◌, ◌>>◌}
use the_black_hole.Portal.Page.{
  on_element, set_text, set_html, show_toast, if_present, fetch_get, received,
}
use the_black_hole.Portal.Uri.{encode_uri_component}
use the_black_hole.Portal.Html.{escape_html}
use the_black_hole.Portal.Html.Badges.{render_tls_status_badge, render_mtls_status_badge}
use the_black_hole.Portal.Loaders.Common.{with_session, require_ok, json_settings, body_text}

unfoldable pub oidc_badge : Settings → String
unfolding escape_html
oidc_badge s =
    if is_set s.oidc_issuer
    then "<span class=\"badge-status active\">SSO Enabled</span> <code>"
      <> escape_html s.oidc_client_id
      <> "</code>"
    else "<span class=\"badge-status disabled\">SSO Disabled</span> "
      <> "(Using default Admin credentials)"

module _ {J : Type 0} where
  unfoldable pub show_settings : Settings → Task J (Unit {0})
  show_settings s = do
    set_text "settings-port" (or_else s.port "8080")
    set_text "settings-db-path" (or_else s.database_path "-")
    set_text "settings-vault-provider" (or_else s.vault_provider "local")
    set_text "settings-vault-local-path" (or_else s.vault_local_path "-")
    set_html "settings-oidc-status" (oidc_badge s)
    set_html "settings-tls-status" (render_tls_status_badge s)
    set_html "settings-mtls-status" (render_mtls_status_badge s)

  -- `loadSettingsConfig`
  unfoldable pub load_settings_config : Task J (Unit {0})
  load_settings_config = with_session (
      catch
        (fetch_get "/api/settings" λ r. received r λ ok body. do
          require_ok ok "Failed to load settings configuration"
          s ← json_settings body
          show_settings s)
        (λ e. show_toast "Failed to retrieve server configurations" "error"))

  -- `loadOpenAPIDocs`; the body is the text that `JSON.stringify(spec, null, 2)` prints.
  unfoldable pub load_openapi_docs : Task J (Unit {0})
  load_openapi_docs = with_session (
      if_present "openapi-code-block" (do
        set_text "openapi-code-block" "Resolving active routes documentation..."
        if_present "btn-interactive-swagger" (
            read λ w. on_element "btn-interactive-swagger" (λ e. record e {
              href = "/swagger.html?token=" <> encode_uri_component w.state.token;
            }))
        catch
            (fetch_get "/api/openapi.json" λ r. received r λ ok body. do
              require_ok ok "Failed to retrieve openapi specs"
              spec ← body_text body
              set_text "openapi-code-block" spec)
            (λ e. set_text "openapi-code-block" ("Error: " <> e))))
