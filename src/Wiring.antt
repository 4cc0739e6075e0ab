-- ===== src/Wiring.antt =====
-- main.go: the MCP server over the store of pkg/storage and the client of pkg/gateway, where
-- `OAUTH_ENABLED` is off and `CONFIG_CACHE_TTL` is 0. The database does not fail; the audit table, the
-- source of identifiers and the writing of secrets are parameters.
pub mod Containment
mod Tests
use the_black_hole.Prelude.{String, Option, none, some, false, ◌≡◌}
use the_black_hole.Prelude.Results.{Result, on_result}
use the_black_hole.Json.{Fields}
use the_black_hole.Cache.{is_enabled}
use the_black_hole.Mcp.Types.{Services, AuditLogEntry}
use the_black_hole.Storage.{Db, get_connections, get_all_endpoints, save_connection, save_endpoint}
use the_black_hole.Storage.Tokens.{get_client_token}
use the_black_hole.Gateway.Call.{Environment, GatewayClient, Params, execute_call}

-- `db` and `gatewayClient`
pub record Backend (S : Type 0) : Type 0 where
  pub db : Db
  pub client : GatewayClient S

-- The caches of connections and endpoints are off.
abbrev pub IsUncached : Db → Type 0
IsUncached db = (is_enabled db.conn_cache ≡ false) × (is_enabled db.ep_cache ≡ false)

-- What the two are made from, besides the environment of the client. `order` gives the orders in which
-- the loops over a map of arguments meet them.
pub record Outside (S : Type 0) : Type 0 where
  pub hash_token : String → String
  pub order : Fields → Params
  pub log_audit : AuditLogEntry → S → S
  pub new_uuid : S → S × String
  pub set_secret : (key value : String) → S → S × Result (Unit {0})

module _ {S A U : Type 0} (env : Environment S A U) (out : Outside S) where
  -- Changes what is outside of a backend.
  abbrev pub set_outside : S → Backend S → Backend S
  set_outside s b = record b { client = record b.client { outside = s } }

  -- `NewMCPServer(db, gatewayClient, …)` without `EnableOAuth`; `base` has the settings, which do not
  -- concern the two. Reading a store whose caches are off changes nothing.
  unfoldable pub wired : Services (Backend S) → Services (Backend S)
  unfolding get_client_token get_all_endpoints get_connections save_connection save_endpoint
      execute_call
  wired base = record base {
    get_client_token = λ token b.
        on_result (get_client_token out.hash_token none token b.db) (λ e. none) (λ t. some t);
    oauth = none;
    get_all_endpoints = λ b. (get_all_endpoints (env.now b.client.outside) none b.db).1;
    get_connections = λ b. (get_connections (env.now b.client.outside) none b.db).1;
    save_connection =
        λ c b. let (db', r) = save_connection none c b.db in (record b { db = db' }, r);
    save_endpoint = λ e b.
        let (db', r) = save_endpoint base.codec none none e b.db in (record b { db = db' }, r);
    set_secret = λ key value b.
        let (s, r) = out.set_secret key value b.client.outside in (set_outside s b, r);
    log_audit = λ e b. set_outside (out.log_audit e b.client.outside) b;
    execute_call = λ conn ep args b.
        let (c, r) = execute_call env conn ep (out.order args) b.client in
        (record b { client = c }, r);
    new_uuid = λ b. let (s, id) = out.new_uuid b.client.outside in (set_outside s b, id);
  }
