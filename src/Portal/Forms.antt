-- ===== src/Portal/Forms.antt =====
-- The forms, the dialogs and the buttons that change something on the server.
use the_black_hole.Prelude.{String, [], ◌∷◌, some, Bool, ◌<>◌, if◌then◌else◌, or_else}
use the_black_hole.Portal.Types.{
  Payload, Verb, post, delete, nothing, connection, endpoint, secret, client_token, Body,
}
use the_black_hole.Portal.Task.{done, read, fetch, catch, ◌>>=◌, ◌>>◌}
use the_black_hole.Portal.Page.{hide, show_toast, reset_form, with_value, with_checked, received}
use the_black_hole.Portal.Uri.{encode_uri_component}
use the_black_hole.Portal.Loaders.Common.{json_error}
use the_black_hole.Portal.Loaders.Names.{
  connections, endpoints, vault_secrets, openapi_docs, client_tokens,
}
use the_black_hole.Portal.Router.{Handler, start}

-- `fetch(url, { method, headers: getHeaders(), body })`
unfoldable pub send : Verb → String → Payload → (Bool → Body → Handler) → Handler
send verb url payload k = read λ w.
    fetch (record { verb = verb; url = url; bearer = some w.state.token; payload = payload })
      λ r. received r k

-- `showToast(e.message, 'error')`
unfoldable pub report : String → Handler
report e = show_toast e "error"

-- `if (!confirm(…)) return;`, the `DELETE` request, and a toast for either answer.
unfoldable pub delete_item : (confirmed : Bool) (url success failure : String) → Handler → Handler
delete_item confirmed url success failure reload =
    if confirmed
    then catch
        (send delete url nothing λ ok body.
          if ok then (do show_toast success "success"; reload) else show_toast failure "error")
        report
    else done tt

-- `deleteVaultSecret`
unfoldable pub delete_vault_secret : (confirmed : Bool) (key : String) → Handler
unfolding delete_item
delete_vault_secret confirmed key =
    delete_item confirmed ("/api/vault?key=" <> encode_uri_component key)
      "Secret deleted from vault successfully" "Failed to delete secret from vault"
      (start vault_secrets)

-- `deleteConnection`
unfoldable pub delete_connection : (confirmed : Bool) (id : String) → Handler
unfolding delete_item
delete_connection confirmed id =
    delete_item confirmed ("/api/connections/" <> id) "API Connection deleted successfully"
      "Failed to delete connection" (do start connections; start endpoints)

-- `deleteEndpoint`
unfoldable pub delete_endpoint : (confirmed : Bool) (id : String) → Handler
unfolding delete_item
delete_endpoint confirmed id =
    delete_item confirmed ("/api/endpoints/" <> id) "MCP Tool deleted successfully"
      "Failed to delete tool" (start endpoints)

-- `deleteClientToken`
unfoldable pub delete_client_token : (confirmed : Bool) (token : String) → Handler
unfolding delete_item
delete_client_token confirmed token =
    delete_item confirmed ("/api/tokens?token=" <> encode_uri_component token)
      "Client Token deleted successfully" "Failed to delete client token" (start client_tokens)

-- What a form does with an answer: `then_do` on success, else the server's error or a default.
unfoldable pub finish_form : (failure : String) → Handler → Bool → Body → Handler
finish_form failure then_do ok body =
    if ok then then_do else (json_error body >>= λ e. show_toast (or_else e failure) "error")

-- `connection-form`
unfoldable pub submit_connection : Handler
unfolding finish_form
submit_connection = with_value "connection-id" λ id. with_value "conn-name" λ name.
    with_value "conn-desc" λ description. with_value "conn-prefix" λ tool_prefix.
      with_value "conn-url" λ base_url. with_value "conn-auth" λ auth_type.
        with_value "conn-secret" λ auth_secret_ref. with_checked "conn-enabled" λ enabled.
          catch
            (send post "/api/connections"
              (connection (record {
                id = id;
                name = name;
                description = description;
                tool_prefix = tool_prefix;
                base_url = base_url;
                auth_type = auth_type;
                auth_secret_ref = auth_secret_ref;
                enabled = enabled;
              }))
              (finish_form "Failed to save connection" (do
                show_toast "API Connection saved successfully" "success"
                hide "connection-modal"
                start connections
                start endpoints
                start openapi_docs)))
            report

-- `endpoint-form`
unfoldable pub submit_endpoint : Handler
unfolding finish_form
submit_endpoint = with_value "endpoint-id" λ id. with_value "ep-conn-id" λ connection_id.
    with_value "ep-tool-name" λ tool_name. with_value "ep-tool-desc" λ tool_description.
      with_value "ep-path" λ path. with_value "ep-method" λ method.
        with_value "ep-schema" λ parameters_schema. with_value "ep-template" λ template.
          catch
            (send post "/api/endpoints"
              (endpoint (record {
                id = id;
                connection_id = connection_id;
                tool_name = tool_name;
                tool_description = tool_description;
                path = path;
                method = method;
                parameters_schema = parameters_schema;
                template = template;
              }))
              (finish_form "Failed to save tool" (do
                show_toast "MCP Tool saved successfully" "success"
                hide "endpoint-modal"
                start endpoints)))
            report

-- `vault-form`; on success the form is reset.
unfoldable pub submit_secret : Handler
unfolding finish_form
submit_secret = with_value "vault-key" λ key. with_value "vault-value" λ value.
    catch
      (send post "/api/vault" (secret key value) (
        finish_form "Failed to delegate secret to vault" (do
          show_toast ("Secret stored in vault as: " <> key) "success"
          reset_form "vault-form" ("vault-key" ∷ "vault-value" ∷ [])
          start vault_secrets)))
      report

-- `token-form`
unfoldable pub submit_token : Handler
unfolding finish_form
submit_token = with_value "token-client-name" λ client_name. with_value "token-value" λ token.
    with_value "token-role" λ client_role. with_value "token-scopes" λ scopes.
      with_checked "token-enabled" λ enabled.
        catch
          (send post "/api/tokens"
            (client_token (record {
              client_name = client_name;
              token = token;
              client_role = client_role;
              scopes = scopes;
              enabled = enabled;
            }))
            (finish_form "Failed to save token" (do
              show_toast "Client Token saved successfully" "success"
              hide "token-modal"
              start client_tokens)))
          report
