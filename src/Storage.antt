-- ===== src/Storage.antt =====
-- pkg/storage/db.go: the tables of the gateway, and the caches in front of two of them. A statement of
-- SQL is what it does to the rows of a table; where the database fails for a reason of its own, the
-- argument `fault` has its message. The tables for audit entries are left to the database.
pub mod Runs
pub mod Hashes
pub mod Caches
pub mod Pins
pub mod Tokens
mod Tests
use the_black_hole.Prelude.{
  ℕ, ◌+◌, String, List, [], ◌∷◌, Option, none, some, Bool, true, false, not, ◌&&◌, ◌||◌, ◌===◌,
  ◌<>◌, if◌then◌else◌, on_option, keep_if,
}
use the_black_hole.Prelude.Results.{Result, ok, err}
use the_black_hole.Cache.{TtlCache, get, set, purge}
use the_black_hole.ToolIntegrity.{Codec, hash}
use the_black_hole.Mcp.Types.{ApiConnection, ApiEndpoint, StoredToken}
use the_black_hole.Mcp.Tools.{definition_of}

-- A row of `client_tokens`.
pub record TokenRow : Type 0 where
  pub token : String
  pub holder : StoredToken

-- `DB`: the rows of its tables in the order of their insertion, whether it enforces foreign keys, and
-- its caches.
pub record Db : Type 0 where
  pub connections : List ApiConnection
  pub endpoints : List ApiEndpoint
  pub tokens : List TokenRow
  pub foreign_keys : Bool
  pub conn_cache : Option (TtlCache (List ApiConnection))
  pub ep_cache : Option (TtlCache (List ApiEndpoint))

-- `invalidateCaches`
unfoldable pub invalidate_caches : Db → Db
unfolding purge
invalidate_caches db = record db { conn_cache = purge db.conn_cache; ep_cache = purge db.ep_cache }

-- What the row of a value that conflicts on its id becomes, or else a new row at the end.
unfoldable pub upsert_connection : ApiConnection → List ApiConnection → List ApiConnection
upsert_connection c [] = c ∷ []
upsert_connection c (row ∷ rows) =
    let rest = upsert_connection c rows in if row.id === c.id then c ∷ rows else row ∷ rest

unfoldable pub upsert_endpoint : ApiEndpoint → List ApiEndpoint → List ApiEndpoint
upsert_endpoint e [] = e ∷ []
upsert_endpoint e (row ∷ rows) =
    let rest = upsert_endpoint e rows in if row.id === e.id then e ∷ rows else row ∷ rest

-- The constraints `UNIQUE` on names: has another row the name?
unfoldable pub is_connection_name_taken : ApiConnection → List ApiConnection → Bool
is_connection_name_taken c [] = false
is_connection_name_taken c (row ∷ rows) =
    (row.name === c.name && not (row.id === c.id)) || is_connection_name_taken c rows

unfoldable pub is_tool_name_taken : ApiEndpoint → List ApiEndpoint → Bool
is_tool_name_taken e [] = false
is_tool_name_taken e (row ∷ rows) =
    (row.tool_name === e.tool_name && not (row.id === e.id)) || is_tool_name_taken e rows

-- Is a connection among the rows?
unfoldable pub is_connection_known : (id : String) → List ApiConnection → Bool
is_connection_known id [] = false
is_connection_known id (row ∷ rows) = row.id === id || is_connection_known id rows

abbrev pub unique_failed : String
unique_failed = "UNIQUE constraint failed"

-- `SaveConnection`
unfoldable pub save_connection :
    (fault : Option String) → ApiConnection → Db → Db × Result (Unit {0})
unfolding invalidate_caches upsert_connection is_connection_name_taken
save_connection (some e) c db = (db, err e)
save_connection none c db =
    if is_connection_name_taken c db.connections
    then (db, err unique_failed)
    else (invalidate_caches (record db { connections = upsert_connection c db.connections }), ok tt)

-- `DeleteConnection`, with the rows that refer to it where the database enforces the reference.
unfoldable pub delete_connection :
    (fault : Option String) → (id : String) → Db → Db × Result (Unit {0})
unfolding invalidate_caches
delete_connection (some e) id db = (db, err e)
delete_connection none id db = (
  invalidate_caches (record db {
    connections = keep_if (λ c. not (c.id === id)) db.connections;
    endpoints =
        if db.foreign_keys
        then keep_if (λ e. not (e.connection_id === id)) db.endpoints
        else db.endpoints;
  }),
  ok tt,
)

-- `SELECT … FROM api_endpoints WHERE id = ?`
unfoldable pub find_endpoint_row : (id : String) → List ApiEndpoint → Option ApiEndpoint
find_endpoint_row id [] = none
find_endpoint_row id (row ∷ rows) =
    let rest = find_endpoint_row id rows in if row.id === id then some row else rest

-- `version`
unfoldable pub next_version : (new_hash : String) → Option ApiEndpoint → ℕ
next_version new_hash none = 1
next_version new_hash (some row) =
    if not (row.definition_hash === new_hash) then row.version + 1 else row.version

-- The endpoint as it is stored.
unfoldable pub stamped : Codec → ApiEndpoint → List ApiEndpoint → ApiEndpoint
unfolding hash definition_of next_version find_endpoint_row
stamped codec e rows =
    let new_hash = hash codec (definition_of e.tool_name e) in
    record e {
      definition_hash = new_hash;
      version = next_version new_hash (find_endpoint_row e.id rows);
    }

-- The constraint of `api_endpoints` that a row violates.
unfoldable pub constraint_fault : ApiEndpoint → Db → Option String
unfolding is_tool_name_taken is_connection_known
constraint_fault ep db =
    if is_tool_name_taken ep db.endpoints
    then some unique_failed
    else if db.foreign_keys && not (is_connection_known ep.connection_id db.connections)
    then some "FOREIGN KEY constraint failed"
    else none

-- The statement at the end of `SaveEndpoint`.
unfoldable pub insert_endpoint : (fault : Option String) → ApiEndpoint → Db → Db × Result (Unit {0})
unfolding invalidate_caches upsert_endpoint constraint_fault
insert_endpoint (some e) ep db = (db, err e)
insert_endpoint none ep db =
    on_option (constraint_fault ep db)
      (invalidate_caches (record db { endpoints = upsert_endpoint ep db.endpoints }), ok tt)
      (λ e. (db, err e))

-- `SaveEndpoint`; its query and its statement can both fail.
unfoldable pub save_endpoint :
    Codec → (query_fault fault : Option String) → ApiEndpoint → Db → Db × Result (Unit {0})
unfolding stamped insert_endpoint
save_endpoint codec (some e) fault ep db = (db, err ("failed to look up existing endpoint: " <> e))
save_endpoint codec none fault ep db = insert_endpoint fault (stamped codec ep db.endpoints) db

-- `DeleteEndpoint`
unfoldable pub delete_endpoint :
    (fault : Option String) → (id : String) → Db → Db × Result (Unit {0})
unfolding invalidate_caches
delete_endpoint (some e) id db = (db, err e)
delete_endpoint none id db = (
  invalidate_caches (record db { endpoints = keep_if (λ e. not (e.id === id)) db.endpoints }),
  ok tt,
)

-- `GetConnections` and `GetAllEndpoints`, at a time.
unfoldable pub get_connections :
    (now : ℕ) (fault : Option String) → Db → Db × Result (List ApiConnection)
unfolding get set
get_connections now fault db =
    on_option (get now "all" db.conn_cache)
      (on_option fault
        (record db { conn_cache = set now "all" db.connections db.conn_cache }, ok db.connections)
        (λ e. (db, err e)))
      (λ v. (db, ok v))

unfoldable pub get_all_endpoints :
    (now : ℕ) (fault : Option String) → Db → Db × Result (List ApiEndpoint)
unfolding get set
get_all_endpoints now fault db =
    on_option (get now "all" db.ep_cache)
      (on_option fault
        (record db { ep_cache = set now "all" db.endpoints db.ep_cache }, ok db.endpoints)
        (λ e. (db, err e)))
      (λ v. (db, ok v))
