-- ===== src/Portal/Keeps/Bodies.antt =====
-- What the loaders have in common keeps what the page's operations keep.
use the_black_hole.Prelude.{String, [], Bool}
use the_black_hole.Portal.Types.{
  Request, Body, connections, endpoints, logs, tokens, keys, operations, settings, login, text,
  null,
}
use the_black_hole.Portal.World.{World}
use the_black_hole.Portal.Task.{Task}
use the_black_hole.Portal.Keeps.{Keeps, Keeps-done, Keeps-throw, Keeps-read, Keeps-if}
use the_black_hole.Portal.Loaders.Common.{
  with_session, require_ok, json_connections, json_endpoints, json_logs, json_tokens, json_keys,
  json_operations, json_settings, json_login, json_error, body_text,
}

module _ {I : World → Type 0} {R : World → Request → Type 0} {J : Type 0} where
  pub Keeps-with_session :
      (t : Task J (Unit {0})) (w : World) → Keeps I R t w → Keeps I R (with_session t) w
  unfolding with_session
  Keeps-with_session t w h = Keeps-read _ w (Keeps-if _ t _ w h (Keeps-done tt w))

  pub Keeps-require_ok :
      (b : Bool) (message : String) (w : World) → Keeps I R (require_ok {J = J} b message) w
  unfolding require_ok
  Keeps-require_ok b message w = Keeps-if b _ _ w (Keeps-done tt w) (Keeps-throw message w)

  pub Keeps-json_connections :
      (body : Body) (w : World) → Keeps I R (json_connections {J = J} body) w
  unfolding json_connections
  Keeps-json_connections (connections xs) = Keeps-done xs
  Keeps-json_connections null = Keeps-done []
  Keeps-json_connections _ = Keeps-throw _

  pub Keeps-json_endpoints : (body : Body) (w : World) → Keeps I R (json_endpoints {J = J} body) w
  unfolding json_endpoints
  Keeps-json_endpoints (endpoints xs) = Keeps-done xs
  Keeps-json_endpoints null = Keeps-done []
  Keeps-json_endpoints _ = Keeps-throw _

  pub Keeps-json_logs : (body : Body) (w : World) → Keeps I R (json_logs {J = J} body) w
  unfolding json_logs
  Keeps-json_logs (logs xs) = Keeps-done xs
  Keeps-json_logs null = Keeps-done []
  Keeps-json_logs _ = Keeps-throw _

  pub Keeps-json_tokens : (body : Body) (w : World) → Keeps I R (json_tokens {J = J} body) w
  unfolding json_tokens
  Keeps-json_tokens (tokens xs) = Keeps-done xs
  Keeps-json_tokens null = Keeps-done []
  Keeps-json_tokens _ = Keeps-throw _

  pub Keeps-json_keys : (body : Body) (w : World) → Keeps I R (json_keys {J = J} body) w
  unfolding json_keys
  Keeps-json_keys (keys xs) = Keeps-done xs
  Keeps-json_keys null = Keeps-done []
  Keeps-json_keys _ = Keeps-throw _

  pub Keeps-json_operations : (body : Body) (w : World) → Keeps I R (json_operations {J = J} body) w
  unfolding json_operations
  Keeps-json_operations (operations x) = Keeps-done x
  Keeps-json_operations _ = Keeps-throw _

  pub Keeps-json_settings : (body : Body) (w : World) → Keeps I R (json_settings {J = J} body) w
  unfolding json_settings
  Keeps-json_settings (settings x) = Keeps-done x
  Keeps-json_settings _ = Keeps-throw _

  pub Keeps-json_login : (body : Body) (w : World) → Keeps I R (json_login {J = J} body) w
  unfolding json_login
  Keeps-json_login (login x) = Keeps-done x
  Keeps-json_login _ = Keeps-throw _

  pub Keeps-json_error : (body : Body) (w : World) → Keeps I R (json_error {J = J} body) w
  unfolding json_error
  Keeps-json_error (Body.error x) = Keeps-done x
  Keeps-json_error _ = Keeps-throw _

  pub Keeps-body_text : (body : Body) (w : World) → Keeps I R (body_text {J = J} body) w
  unfolding body_text
  Keeps-body_text (text s) = Keeps-done s
  Keeps-body_text _ = Keeps-done _

pub ruleset keeps_bodies = (
  Keeps-with_session, Keeps-require_ok, Keeps-json_connections, Keeps-json_endpoints,
  Keeps-json_logs, Keeps-json_tokens, Keeps-json_keys, Keeps-json_operations, Keeps-json_settings,
  Keeps-body_text,
)
