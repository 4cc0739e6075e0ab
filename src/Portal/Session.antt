-- ===== src/Portal/Session.antt =====
-- `initAuth` and `bootstrapApp`, and the ways to enter and to leave a session.
use the_black_hole.Prelude.{
  String, Option, none, some, Bool, true, ◌&&◌, ◌===◌, ◌<>◌, if◌then◌else◌, has_prefix, is_set,
  or_else,
}
use the_black_hole.Portal.Types.{Login, post, credentials}
use the_black_hole.Portal.World.{World}
use the_black_hole.Portal.Task.{done, modify, read, fetch, catch, ◌>>=◌, ◌>>◌}
use the_black_hole.Portal.Page.{set_text, show, hide, show_toast, with_value, received}
use the_black_hole.Portal.Loaders.Common.{json_login}
use the_black_hole.Portal.Loaders.Names.{
  dashboard_stats, connections, endpoints, audit_logs, vault_secrets, settings_config, openapi_docs,
  client_tokens,
}
use the_black_hole.Portal.Router.{Handler, start, assign_hash, view_name, setup_router}

-- The session in local storage and in `STATE`, as SSO and login write it.
unfoldable pub write_session : (token username : String) → World → World
write_session token username w = record w {
  storage = record (w.storage) { token = some token; username = some username };
  state = record (w.state) { token = token; username = username };
}

-- Both items are removed and the page is reloaded: on logout, and on an answer 401.
unfoldable pub drop_session : World → World
drop_session w = record w {
  storage = record (w.storage) { token = none; username = none };
  reloading = true;
}

abbrev query_or_empty : Option String → String
query_or_empty none = ""
query_or_empty (some s) = s

-- The token of the SSO callback, if it has one, becomes the session.
unfoldable pub accept_callback : Option String → World → World
accept_callback none w = w
accept_callback (some token) w =
    let username = query_or_empty (w.browser.query_param (view_name w.hash) "username") in
    if is_set token
    then assign_hash "#dashboard" (write_session token (or_else username "SSO User") w)
    else w

-- The part of `initAuth` that reads the hash of the SSO callback.
unfoldable pub read_callback : World → World
unfolding accept_callback view_name write_session assign_hash
read_callback w =
    if has_prefix w.hash "#token="
    then accept_callback (w.browser.query_param (view_name w.hash) "token") w
    else w

-- The views that `bootstrapApp` loads.
unfoldable pub load_views : Handler
load_views = do
  start dashboard_stats
  start connections
  start endpoints
  start audit_logs
  start vault_secrets
  start settings_config
  start openapi_docs
  start client_tokens

-- `bootstrapApp`; the address that it shows has the token of the source text in it.
unfoldable pub bootstrap_app : Handler
bootstrap_app = do
  setup_router
  load_views
  read λ w. set_text "config-sse-url" (
      (if w.protocol === "https:" then "https" else "http")
      <> "://"
      <> w.host
      <> "/sse?token=secure-mcp-gateway-token-123456")

-- The part of `initAuth` that shows the application or the login form.
unfoldable pub show_session : Handler
show_session = read λ w.
    if is_set w.state.token
    then (do
      hide "login-container"
      show "app-shell"
      set_text "display-user" w.state.username
      bootstrap_app)
    else (do show "login-container"; hide "app-shell")

-- `initAuth`
unfoldable pub init_auth : Handler
unfolding show_session read_callback
init_auth = modify read_callback show_session

-- What the login form does with an answer: `data` is the parsed body.
unfoldable pub accept_login : Bool → Login → Handler
accept_login ok l =
    if ok && is_set l.token
    then modify (write_session l.token l.username)
        (do init_auth; show_toast "Authenticated successfully" "success")
    else show_toast (or_else l.error "Invalid username or password") "error"

-- `login-form`
unfoldable pub submit_login : Handler
submit_login = with_value "username" λ username. with_value "password" λ password.
    catch
      (fetch
        (record {
          verb = post;
          url = "/api/auth/login";
          bearer = none;
          payload = credentials username password;
        })
        λ r. received r λ ok body. do l ← json_login body; accept_login ok l)
      (λ e. show_toast "Server authentication connection failed" "error")

-- `logout-btn` and `sso-btn`
unfoldable pub click_logout : Handler
click_logout = modify drop_session (done tt)

unfoldable pub click_sso : Handler
click_sso = modify (λ w. record w { location = "/api/auth/sso/login" }) (done tt)
