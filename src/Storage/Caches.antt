-- ===== src/Storage/Caches.antt =====
-- The caches of pkg/storage/db.go against a database that has none.
use the_black_hole.Prelude.{
  ℕ, String, List, [], ◌∷◌, Option, none, some, ◌≡◌, refl, ap, ◌∙◌, if_cases, on_option,
  on_option_cases, eq_refl, arith,
}
use the_black_hole.Prelude.Results.{Result, ok, err}
use the_black_hole.ToolIntegrity.{Codec}
use the_black_hole.Mcp.Types.{ApiConnection, ApiEndpoint}
use the_black_hole.Cache.{TtlCache, get, set, purge, find, fresh_value}
use the_black_hole.Storage.{
  Db, insert_endpoint, stamped, constraint_fault, is_connection_name_taken, invalidate_caches,
  get_connections, get_all_endpoints,
}
use the_black_hole.Storage.Runs.{
  Change, connection_saved, connection_deleted, endpoint_saved, endpoint_deleted, connections_read,
  endpoints_read, token_saved, token_deleted, name_deleted, apply_change, run_changes,
}

-- What a cache has under the key of the reads is the rows of its table.
abbrev pub Agrees : {A : Type 0} → List A → Option (TtlCache (List A)) → Type 0
Agrees {A} rows c = (now : ℕ) (v : List A) → get now "all" c ≡ some v → v ≡ rows

Agrees-purge : {A : Type 0} (rows : List A) (c : Option (TtlCache (List A))) → Agrees rows (purge c)
unfolding get purge find fresh_value
Agrees-purge rows none now v h = cc
Agrees-purge rows (some c) now v h = ground arith

Agrees-set :
    {A : Type 0} (rows : List A) (t : ℕ) (c : Option (TtlCache (List A)))
    → Agrees rows (set t "all" rows c)
unfolding get set find fresh_value
Agrees-set rows t none now v h = cc
Agrees-set rows t (some c) now v h = let same = eq_refl "all" in ground arith

-- `DB` as it is before `EnableConfigCache`.
unfoldable pub uncached : Db → Db
uncached db = record db { conn_cache = none; ep_cache = none }

abbrev pub IsCoherent : Db → Type 0
IsCoherent db = Agrees db.connections db.conn_cache × Agrees db.endpoints db.ep_cache

module _ (codec : Codec) (hash_token : String → String) where
  insert_endpoint-IsCoherent :
      (fault : Option String) (e : ApiEndpoint) (db : Db)
      → IsCoherent db
      → IsCoherent (insert_endpoint fault e db).0
  unfolding insert_endpoint invalidate_caches
  insert_endpoint-IsCoherent (some x) e db h = h
  insert_endpoint-IsCoherent none e db h =
      on_option_cases (λ (r : Db × Result (Unit {0})). IsCoherent r.0) (constraint_fault e db) _ _
        (λ n. (Agrees-purge _ db.conn_cache, Agrees-purge _ db.ep_cache)) (λ x y. h)

  apply_change-IsCoherent :
      (c : Change) (db : Db) → IsCoherent db → IsCoherent (apply_change codec hash_token c db)
  unfolding apply_change invalidate_caches
  apply_change-IsCoherent (connection_saved (some e) c) db h = h
  apply_change-IsCoherent (connection_saved none c) db h =
      if_cases (λ (r : Db × Result (Unit {0})). IsCoherent r.0)
        (is_connection_name_taken c db.connections) _ _ (λ y. h)
        (λ n. (Agrees-purge _ db.conn_cache, Agrees-purge _ db.ep_cache))
  apply_change-IsCoherent (connection_deleted (some e) id) db h = h
  apply_change-IsCoherent (connection_deleted none id) db h =
      (Agrees-purge _ db.conn_cache, Agrees-purge _ db.ep_cache)
  apply_change-IsCoherent (endpoint_saved (some e) fault ep) db h = h
  apply_change-IsCoherent (endpoint_saved none fault ep) db h =
      insert_endpoint-IsCoherent fault (stamped codec ep db.endpoints) db h
  apply_change-IsCoherent (endpoint_deleted (some e) id) db h = h
  apply_change-IsCoherent (endpoint_deleted none id) db h =
      (Agrees-purge _ db.conn_cache, Agrees-purge _ db.ep_cache)
  apply_change-IsCoherent (connections_read now fault) db h =
      on_option_cases (λ (r : Db × Result (List ApiConnection)). IsCoherent r.0)
        (get now "all" db.conn_cache) _ _
        (λ n.
          on_option_cases (λ (r : Db × Result (List ApiConnection)). IsCoherent r.0) fault _ _
            (λ n. (Agrees-set db.connections now db.conn_cache, h.1)) (λ e y. h))
        (λ v y. h)
  apply_change-IsCoherent (endpoints_read now fault) db h =
      on_option_cases (λ (r : Db × Result (List ApiEndpoint)). IsCoherent r.0)
        (get now "all" db.ep_cache) _ _
        (λ n.
          on_option_cases (λ (r : Db × Result (List ApiEndpoint)). IsCoherent r.0) fault _ _
            (λ n. (h.0, Agrees-set db.endpoints now db.ep_cache)) (λ e y. h))
        (λ v y. h)
  apply_change-IsCoherent (token_saved (some e) token holder) db h = h
  apply_change-IsCoherent (token_saved none token holder) db h =
      if_cases (λ (r : Db × Result (Unit {0})). IsCoherent r.0) _ _ _ (λ y. h) (λ n. h)
  apply_change-IsCoherent (token_deleted (some e) token) db h = h
  apply_change-IsCoherent (token_deleted none token) db h = h
  apply_change-IsCoherent (name_deleted (some e) name) db h = h
  apply_change-IsCoherent (name_deleted none name) db h = h

  pub run_changes-IsCoherent :
      (cs : List Change) (db : Db) → IsCoherent db → IsCoherent (run_changes codec hash_token cs db)
  unfolding run_changes
  run_changes-IsCoherent [] db h = h
  run_changes-IsCoherent (c ∷ cs) db h =
      apply_change-IsCoherent c _ (run_changes-IsCoherent cs db h)

  -- A call does to the tables what it does where there are no caches.
  insert_endpoint-uncached :
      (fault : Option String) (e : ApiEndpoint) (db : Db)
      → uncached (insert_endpoint fault e db).0 ≡ (insert_endpoint fault e (uncached db)).0
  unfolding insert_endpoint constraint_fault uncached invalidate_caches purge
  insert_endpoint-uncached (some x) e db = refl
  insert_endpoint-uncached none e db = ground arith

  apply_change-uncached :
      (c : Change) (db : Db)
      → uncached (apply_change codec hash_token c db)
        ≡ apply_change codec hash_token c (uncached db)
  unfolding apply_change uncached invalidate_caches purge get set
  apply_change-uncached (connection_saved (some e) c) db = refl
  apply_change-uncached (connection_saved none c) db = ground arith
  apply_change-uncached (connection_deleted (some e) id) db = refl
  apply_change-uncached (connection_deleted none id) db = refl
  apply_change-uncached (endpoint_saved (some e) fault ep) db = refl
  apply_change-uncached (endpoint_saved none fault ep) db =
      insert_endpoint-uncached fault (stamped codec ep db.endpoints) db
  apply_change-uncached (endpoint_deleted (some e) id) db = refl
  apply_change-uncached (endpoint_deleted none id) db = refl
  apply_change-uncached (connections_read now fault) db =
      let P = λ (r : Db × Result (List ApiConnection)).
        uncached r.0
        ≡ (on_option {B = Db × Result (List ApiConnection)} fault (uncached db, ok db.connections)
            (λ e. (uncached db, err e))).0 in
      on_option_cases P (get now "all" db.conn_cache) _ _
        (λ n. on_option_cases P fault _ _ (λ n. ground arith) (λ e y. ground arith))
        (λ v y. ground arith)
  apply_change-uncached (endpoints_read now fault) db =
      let P = λ (r : Db × Result (List ApiEndpoint)).
        uncached r.0
        ≡ (on_option {B = Db × Result (List ApiEndpoint)} fault (uncached db, ok db.endpoints)
            (λ e. (uncached db, err e))).0 in
      on_option_cases P (get now "all" db.ep_cache) _ _
        (λ n. on_option_cases P fault _ _ (λ n. ground arith) (λ e y. ground arith))
        (λ v y. ground arith)
  apply_change-uncached (token_saved (some e) token holder) db = refl
  apply_change-uncached (token_saved none token holder) db = ground arith
  apply_change-uncached (token_deleted (some e) token) db = refl
  apply_change-uncached (token_deleted none token) db = refl
  apply_change-uncached (name_deleted (some e) name) db = refl
  apply_change-uncached (name_deleted none name) db = refl

  run_changes-uncached :
      (cs : List Change) (db : Db)
      → uncached (run_changes codec hash_token cs db)
        ≡ run_changes codec hash_token cs (uncached db)
  unfolding run_changes
  run_changes-uncached [] db = refl
  run_changes-uncached (c ∷ cs) db =
      apply_change-uncached c _ ∙ ap (apply_change codec hash_token c) (run_changes-uncached cs db)

  pub read_endpoints :
      (now : ℕ) (db : Db) → IsCoherent db → (get_all_endpoints now none db).1 ≡ ok db.endpoints
  unfolding get_all_endpoints
  read_endpoints now db h =
      on_option_cases (λ (r : Db × Result (List ApiEndpoint)). r.1 ≡ ok db.endpoints)
        (get now "all" db.ep_cache) _ _ (λ n. refl) (λ v y. ap ok (h.1 now v y))

  read_connections :
      (now : ℕ) (db : Db) → IsCoherent db → (get_connections now none db).1 ≡ ok db.connections
  unfolding get_connections
  read_connections now db h =
      on_option_cases (λ (r : Db × Result (List ApiConnection)). r.1 ≡ ok db.connections)
        (get now "all" db.conn_cache) _ _ (λ n. refl) (λ v y. ap ok (h.0 now v y))

  -- Whatever calls were made, the endpoints and the connections that are read through the caches are
  -- those that a database without caches gives after the same calls, if what the caches held at the
  -- start agreed with the tables.
  pub cached_reads :
      (cs : List Change) (db : Db) (now : ℕ)
      → IsCoherent db
      → ((get_all_endpoints now none (run_changes codec hash_token cs db)).1
          ≡ (get_all_endpoints now none (run_changes codec hash_token cs (uncached db))).1)
        × ((get_connections now none (run_changes codec hash_token cs db)).1
            ≡ (get_connections now none (run_changes codec hash_token cs (uncached db))).1)
  unfolding get_all_endpoints get_connections uncached get
  cached_reads cs db now h =
      let after = run_changes codec hash_token cs db in
      let coherent = run_changes-IsCoherent cs db h in
      let plain = run_changes-uncached cs db in
      (
        read_endpoints now after coherent ∙ ap (λ (x : Db). (get_all_endpoints now none x).1) plain,
        read_connections now after coherent ∙ ap (λ (x : Db). (get_connections now none x).1) plain,
      )
