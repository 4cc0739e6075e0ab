-- ===== src/Storage/Hashes.antt =====
-- The hash that `SaveEndpoint` stores with an endpoint.
use the_black_hole.Prelude.{
  String, List, [], ◌∷◌, Option, none, some, ◌===◌, ◌≡◌, refl, All, All-keep_if, if_cases,
  on_option_cases,
}
use the_black_hole.Prelude.Results.{Result}
use the_black_hole.ToolIntegrity.{Codec, hash}
use the_black_hole.Mcp.Types.{ApiConnection, ApiEndpoint}
use the_black_hole.Mcp.Tools.{definition_of}
use the_black_hole.Cache.{get}
use the_black_hole.Storage.{
  Db, insert_endpoint, upsert_endpoint, stamped, constraint_fault, is_connection_name_taken,
}
use the_black_hole.Storage.Runs.{
  Change, connection_saved, connection_deleted, endpoint_saved, endpoint_deleted, connections_read,
  endpoints_read, token_saved, token_deleted, name_deleted, apply_change, run_changes,
}

module _ (codec : Codec) where
  -- An endpoint carries the hash of its own definition, under its own name.
  abbrev pub IsStamped : ApiEndpoint → Type 0
  IsStamped e = e.definition_hash ≡ hash codec (definition_of e.tool_name e)

  abbrev pub AllStamped : Db → Type 0
  AllStamped db = All IsStamped db.endpoints

  stamped-IsStamped : (e : ApiEndpoint) (rows : List ApiEndpoint) → IsStamped (stamped codec e rows)
  unfolding stamped
  stamped-IsStamped e rows = refl

  upsert_endpoint-All :
      (e : ApiEndpoint) (rows : List ApiEndpoint)
      → IsStamped e
      → All IsStamped rows
      → All IsStamped (upsert_endpoint e rows)
  unfolding upsert_endpoint
  upsert_endpoint-All e [] h hs = (h, tt)
  upsert_endpoint-All e (row ∷ rows) h hs =
      if_cases (All IsStamped) (row.id === e.id) _ _ (λ y. (h, hs.1))
        (λ n. (hs.0, upsert_endpoint-All e rows h hs.1))

  insert_endpoint-AllStamped :
      (fault : Option String) (e : ApiEndpoint) (db : Db)
      → IsStamped e
      → AllStamped db
      → AllStamped (insert_endpoint fault e db).0
  unfolding insert_endpoint
  insert_endpoint-AllStamped (some x) e db h hs = hs
  insert_endpoint-AllStamped none e db h hs =
      on_option_cases (λ (r : Db × Result (Unit {0})). AllStamped r.0) (constraint_fault e db) _ _
        (λ n. upsert_endpoint-All e db.endpoints h hs) (λ x y. hs)

module _ (codec : Codec) (hash_token : String → String) where
  apply_change-AllStamped :
      (c : Change) (db : Db)
      → AllStamped codec db
      → AllStamped codec (apply_change codec hash_token c db)
  unfolding apply_change
  apply_change-AllStamped (connection_saved (some e) c) db h = h
  apply_change-AllStamped (connection_saved none c) db h =
      if_cases (λ (r : Db × Result (Unit {0})). AllStamped codec r.0)
        (is_connection_name_taken c db.connections) _ _ (λ y. h) (λ n. h)
  apply_change-AllStamped (connection_deleted (some e) id) db h = h
  apply_change-AllStamped (connection_deleted none id) db h =
      if_cases (All (IsStamped codec)) db.foreign_keys _ _ (λ y. All-keep_if _ _ db.endpoints h)
        (λ n. h)
  apply_change-AllStamped (endpoint_saved (some e) fault ep) db h = h
  apply_change-AllStamped (endpoint_saved none fault ep) db h =
      insert_endpoint-AllStamped codec fault (stamped codec ep db.endpoints) db
        (stamped-IsStamped codec ep db.endpoints) h
  apply_change-AllStamped (endpoint_deleted (some e) id) db h = h
  apply_change-AllStamped (endpoint_deleted none id) db h = All-keep_if _ _ db.endpoints h
  apply_change-AllStamped (connections_read now fault) db h =
      on_option_cases (λ (r : Db × Result (List ApiConnection)). AllStamped codec r.0)
        (get now "all" db.conn_cache) _ _
        (λ n.
          on_option_cases (λ (r : Db × Result (List ApiConnection)). AllStamped codec r.0) fault _ _
            (λ n. h) (λ e y. h))
        (λ v y. h)
  apply_change-AllStamped (endpoints_read now fault) db h =
      on_option_cases (λ (r : Db × Result (List ApiEndpoint)). AllStamped codec r.0)
        (get now "all" db.ep_cache) _ _
        (λ n.
          on_option_cases (λ (r : Db × Result (List ApiEndpoint)). AllStamped codec r.0) fault _ _
            (λ n. h) (λ e y. h))
        (λ v y. h)
  apply_change-AllStamped (token_saved (some e) token holder) db h = h
  apply_change-AllStamped (token_saved none token holder) db h =
      if_cases (λ (r : Db × Result (Unit {0})). AllStamped codec r.0) _ _ _ (λ y. h) (λ n. h)
  apply_change-AllStamped (token_deleted (some e) token) db h = h
  apply_change-AllStamped (token_deleted none token) db h = h
  apply_change-AllStamped (name_deleted (some e) name) db h = h
  apply_change-AllStamped (name_deleted none name) db h = h

  -- After any calls, each stored endpoint carries the hash of its own definition, if all did before.
  pub run_changes-AllStamped :
      (cs : List Change) (db : Db)
      → AllStamped codec db
      → AllStamped codec (run_changes codec hash_token cs db)
  unfolding run_changes
  run_changes-AllStamped [] db h = h
  run_changes-AllStamped (c ∷ cs) db h =
      apply_change-AllStamped c _ (run_changes-AllStamped cs db h)
