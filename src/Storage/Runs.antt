-- ===== src/Storage/Runs.antt =====
-- Sequences of calls of pkg/storage/db.go, each of which is taken as one step.
use the_black_hole.Prelude.{ℕ, String, List, [], ◌∷◌, Option}
use the_black_hole.ToolIntegrity.{Codec}
use the_black_hole.Mcp.Types.{ApiConnection, ApiEndpoint, StoredToken}
use the_black_hole.Storage.{
  Db, save_connection, delete_connection, save_endpoint, delete_endpoint, get_connections,
  get_all_endpoints,
}
use the_black_hole.Storage.Tokens.{
  save_client_token, delete_client_token, delete_client_token_by_name,
}

-- A call of the store.
pub data Change : Type 0 where
  connection_saved : (fault : Option String) → ApiConnection → Change
  connection_deleted : (fault : Option String) → (id : String) → Change
  endpoint_saved : (query_fault fault : Option String) → ApiEndpoint → Change
  endpoint_deleted : (fault : Option String) → (id : String) → Change
  connections_read : (now : ℕ) (fault : Option String) → Change
  endpoints_read : (now : ℕ) (fault : Option String) → Change
  token_saved : (fault : Option String) → (token : String) → StoredToken → Change
  token_deleted : (fault : Option String) → (token : String) → Change
  name_deleted : (fault : Option String) → (name : String) → Change

module _ (codec : Codec) (hash_token : String → String) where
  unfoldable pub apply_change : Change → Db → Db
  unfolding save_connection delete_connection save_endpoint delete_endpoint get_connections
      get_all_endpoints save_client_token delete_client_token delete_client_token_by_name
  apply_change (connection_saved fault c) db = (save_connection fault c db).0
  apply_change (connection_deleted fault id) db = (delete_connection fault id db).0
  apply_change (endpoint_saved query_fault fault e) db =
      (save_endpoint codec query_fault fault e db).0
  apply_change (endpoint_deleted fault id) db = (delete_endpoint fault id db).0
  apply_change (connections_read now fault) db = (get_connections now fault db).0
  apply_change (endpoints_read now fault) db = (get_all_endpoints now fault db).0
  apply_change (token_saved fault token holder) db =
      (save_client_token hash_token fault token holder db).0
  apply_change (token_deleted fault token) db = (delete_client_token hash_token fault token db).0
  apply_change (name_deleted fault name) db = (delete_client_token_by_name fault name db).0

  -- A run, its last call first.
  unfoldable pub run_changes : List Change → Db → Db
  unfolding apply_change
  run_changes [] db = db
  run_changes (c ∷ cs) db = apply_change c (run_changes cs db)
