-- ===== src/Portal/Loaders/Common.antt =====
-- What the loaders have in common: the guard on the session, and the readers of a body. Each reader
-- is `await res.json() || []`; a body of another form than the route's is a failed parse.
use the_black_hole.Prelude.{String, List, [], Bool, if◌then◌else◌, is_set}
use the_black_hole.Portal.Types.{
  Connection, Endpoint, Log, ClientToken, Operations, Settings, Login, Body, connections, endpoints,
  logs, tokens, keys, operations, settings, login, text, null,
}
use the_black_hole.Portal.Task.{Task, done, throw, read}

module _ {J : Type 0} where
  -- `if (!STATE.token) return;`
  unfoldable pub with_session : Task J (Unit {0}) → Task J (Unit {0})
  with_session t = read λ w. if is_set w.state.token then t else done tt

  -- `if (!res.ok) throw new Error(message)`
  unfoldable pub require_ok : Bool → String → Task J (Unit {0})
  require_ok b message = if b then done tt else throw message

  unfoldable pub json_connections : Body → Task J (List Connection)
  json_connections (connections xs) = done xs
  json_connections null = done []
  json_connections _ = throw "Unexpected token in JSON"

  unfoldable pub json_endpoints : Body → Task J (List Endpoint)
  json_endpoints (endpoints xs) = done xs
  json_endpoints null = done []
  json_endpoints _ = throw "Unexpected token in JSON"

  unfoldable pub json_logs : Body → Task J (List Log)
  json_logs (logs xs) = done xs
  json_logs null = done []
  json_logs _ = throw "Unexpected token in JSON"

  unfoldable pub json_tokens : Body → Task J (List ClientToken)
  json_tokens (tokens xs) = done xs
  json_tokens null = done []
  json_tokens _ = throw "Unexpected token in JSON"

  unfoldable pub json_keys : Body → Task J (List String)
  json_keys (keys xs) = done xs
  json_keys null = done []
  json_keys _ = throw "Unexpected token in JSON"

  unfoldable pub json_operations : Body → Task J Operations
  json_operations (operations o) = done o
  json_operations _ = throw "Unexpected token in JSON"

  unfoldable pub json_settings : Body → Task J Settings
  json_settings (settings s) = done s
  json_settings _ = throw "Unexpected token in JSON"

  unfoldable pub json_login : Body → Task J Login
  json_login (login l) = done l
  json_login _ = throw "Unexpected token in JSON"

  -- `data.error` of the body of a refused request
  unfoldable pub json_error : Body → Task J String
  json_error (Body.error e) = done e
  json_error _ = throw "Unexpected token in JSON"

  -- `await res.text()`
  unfoldable pub body_text : Body → Task J String
  body_text (text s) = done s
  body_text _ = done ""
