-- ===== src/Storage/Tokens/Revocation.antt =====
-- What the tokens of pkg/storage/db.go resolve to, after one is saved and after a client is revoked.
use the_black_hole.Prelude.{
  String, List, [], ◌∷◌, Option, none, some, Bool, true, false, not, ◌===◌, ◌≡◌, refl, subst,
  keep_if, if◌then◌else◌, if_cases, on_option, on_option_cases, ap, Bool-cases, ◌⊎◌, inl, inr, ◌∙◌,
  eq_iff, arith,
}
use the_black_hole.Prelude.Results.{Result, ok, err}
use the_black_hole.ToolIntegrity.{Codec}
use the_black_hole.Cache.{get}
use the_black_hole.Mcp.Types.{ApiConnection, ApiEndpoint, StoredToken}
use the_black_hole.Storage.{
  unique_failed, Db, TokenRow, insert_endpoint, stamped, constraint_fault, is_connection_name_taken,
}
use the_black_hole.Storage.Tokens.{
  upsert_token, is_client_name_taken, find_token_row, get_client_token, save_client_token,
  delete_client_token_by_name,
}
use the_black_hole.Storage.Runs.{
  Change, connection_saved, connection_deleted, endpoint_saved, endpoint_deleted, connections_read,
  endpoints_read, token_saved, token_deleted, name_deleted, apply_change, run_changes,
}

find_token_row-upsert_token :
    (t : String) (new : TokenRow) (rows : List TokenRow)
    → find_token_row t (upsert_token new rows)
      ≡ (if new.token === t then some new.holder else find_token_row t rows)
unfolding find_token_row upsert_token
find_token_row-upsert_token t new [] = ground arith
find_token_row-upsert_token t new (row ∷ rows) =
    let rest = find_token_row-upsert_token t new rows in
    let e1 = eq_iff row.token new.token in
    let e2 = eq_iff row.token t in let e3 = eq_iff new.token t in ground arith

-- No two rows have one token.
abbrev pub IsKeyed : List TokenRow → Type 0
IsKeyed [] = Unit
IsKeyed (row ∷ rows) = (find_token_row row.token rows ≡ none) × IsKeyed rows

find_token_row-keep_if :
    (p : TokenRow → Bool) (t : String) (rows : List TokenRow)
    → find_token_row t rows ≡ none
    → find_token_row t (keep_if p rows) ≡ none
unfolding find_token_row
find_token_row-keep_if p t [] h = refl
find_token_row-keep_if p t (row ∷ rows) h =
    let rest = find_token_row-keep_if p t rows in ground arith

IsKeyed-kept :
    (b : Bool) (row : TokenRow) (rows : List TokenRow)
    → find_token_row row.token rows ≡ none
    → IsKeyed rows
    → IsKeyed (elim b [ true ↦ row ∷ rows | false ↦ rows ])
IsKeyed-kept true row rows alone h = (alone, h)
IsKeyed-kept false row rows alone h = h

IsKeyed-keep_if :
    (p : TokenRow → Bool) (rows : List TokenRow) → IsKeyed rows → IsKeyed (keep_if p rows)
IsKeyed-keep_if p [] h = tt
IsKeyed-keep_if p (row ∷ rows) h =
    IsKeyed-kept (p row) row (keep_if p rows) (find_token_row-keep_if p row.token rows h.0)
      (IsKeyed-keep_if p rows h.1)

IsKeyed-upsert_token :
    (new : TokenRow) (rows : List TokenRow) → IsKeyed rows → IsKeyed (upsert_token new rows)
unfolding upsert_token find_token_row
IsKeyed-upsert_token new [] h = (refl, tt)
IsKeyed-upsert_token new (row ∷ rows) h =
    if_cases IsKeyed (row.token === new.token) _ _
      (λ y. (subst (λ t. find_token_row t rows ≡ none) ((eq_iff row.token new.token).0 y) h.0, h.1))
      (λ n. (
        let found = find_token_row-upsert_token row.token new rows in
            let e1 = eq_iff row.token new.token in
            let e2 = eq_iff new.token row.token in let alone = h.0 in let other = n in ground arith,
        IsKeyed-upsert_token new rows h.1,
      ))

module _ (codec : Codec) (hash_token : String → String) where
  apply_change-IsKeyed :
      (c : Change) (db : Db)
      → IsKeyed db.tokens
      → IsKeyed (apply_change codec hash_token c db).tokens
  unfolding apply_change insert_endpoint
  apply_change-IsKeyed (connection_saved (some e) c) db h = h
  apply_change-IsKeyed (connection_saved none c) db h =
      if_cases (λ (r : Db × Result (Unit {0})). IsKeyed r.0.tokens)
        (is_connection_name_taken c db.connections) _ _ (λ y. h) (λ n. h)
  apply_change-IsKeyed (connection_deleted (some e) id) db h = h
  apply_change-IsKeyed (connection_deleted none id) db h = h
  apply_change-IsKeyed (endpoint_saved (some e) fault ep) db h = h
  apply_change-IsKeyed (endpoint_saved none (some e) ep) db h = h
  apply_change-IsKeyed (endpoint_saved none none ep) db h =
      on_option_cases (λ (r : Db × Result (Unit {0})). IsKeyed r.0.tokens)
        (constraint_fault (stamped codec ep db.endpoints) db) _ _ (λ n. h) (λ e y. h)
  apply_change-IsKeyed (endpoint_deleted (some e) id) db h = h
  apply_change-IsKeyed (endpoint_deleted none id) db h = h
  apply_change-IsKeyed (connections_read now fault) db h =
      let P = λ (r : Db × Result (List ApiConnection)). IsKeyed r.0.tokens in
      on_option_cases P (get now "all" db.conn_cache) _ _
        (λ n. on_option_cases P fault _ _ (λ n. h) (λ e y. h)) (λ v y. h)
  apply_change-IsKeyed (endpoints_read now fault) db h =
      let P = λ (r : Db × Result (List ApiEndpoint)). IsKeyed r.0.tokens in
      on_option_cases P (get now "all" db.ep_cache) _ _
        (λ n. on_option_cases P fault _ _ (λ n. h) (λ e y. h)) (λ v y. h)
  apply_change-IsKeyed (token_saved (some e) token holder) db h = h
  apply_change-IsKeyed (token_saved none token holder) db h =
      let row : TokenRow = record { token = hash_token token; holder = holder } in
      if_cases (λ (r : Db × Result (Unit {0})). IsKeyed r.0.tokens)
        (is_client_name_taken row db.tokens) _ _ (λ y. h)
        (λ n. IsKeyed-upsert_token row db.tokens h)
  apply_change-IsKeyed (token_deleted (some e) token) db h = h
  apply_change-IsKeyed (token_deleted none token) db h = IsKeyed-keep_if _ db.tokens h
  apply_change-IsKeyed (name_deleted (some e) name) db h = h
  apply_change-IsKeyed (name_deleted none name) db h = IsKeyed-keep_if _ db.tokens h

  run_changes-IsKeyed :
      (cs : List Change) (db : Db)
      → IsKeyed db.tokens
      → IsKeyed (run_changes codec hash_token cs db).tokens
  unfolding run_changes
  run_changes-IsKeyed [] db h = h
  run_changes-IsKeyed (c ∷ cs) db h = apply_change-IsKeyed c _ (run_changes-IsKeyed cs db h)

find_token_row-revoked :
    (name t : String) (rows : List TokenRow)
    → IsKeyed rows
    → find_token_row t (keep_if (λ (row : TokenRow). not (row.holder.client_name === name)) rows)
      ≡ on_option
          (find_token_row t rows)
          none
          (λ (h : StoredToken). if h.client_name === name then none else some h)
unfolding find_token_row
find_token_row-revoked name t [] h = refl
find_token_row-revoked name t (row ∷ rows) h =
    let rest = find_token_row-revoked name t rows h.1 in
    let same = eq_iff row.token t in
    let alone = h.0 in
    let gone = ap (λ (k : String). find_token_row k rows) {x = row.token} {y = t} in ground arith

-- What the store answers for a token once the client of a name is revoked.
abbrev pub revoke : (name : String) → Result StoredToken → Result StoredToken
revoke name (err e) = err e
revoke name (ok h) = if h.client_name === name then err "sql: no rows in result set" else ok h

revoke-found :
    (name : String) (o : Option StoredToken)
    → on_option {B = Result StoredToken}
        (on_option o none (λ (h : StoredToken). if h.client_name === name then none else some h))
        (err "sql: no rows in result set")
        (λ t. ok t)
      ≡ revoke name (on_option o (err "sql: no rows in result set") (λ t. ok t))
revoke-found name none = refl
revoke-found name (some h) = ground arith

-- Whatever calls have led from a store in which no two rows have one token: when a client is revoked
-- by its name, the tokens that stood for a client of that name are found no more, and every other token
-- resolves to what it did before.
pub get_client_token-delete_client_token_by_name :
    (codec : Codec) (hash_token : String → String) (cs : List Change) (db : Db)
    (name token : String)
    → IsKeyed db.tokens
    → let after = run_changes codec hash_token cs db in
      get_client_token hash_token none token (delete_client_token_by_name none name after).0
      ≡ revoke name (get_client_token hash_token none token after)
unfolding get_client_token delete_client_token_by_name
get_client_token-delete_client_token_by_name codec hash_token cs db name token h =
    let after = run_changes codec hash_token cs db in
    ap
      (λ (o : Option StoredToken).
        on_option {B = Result StoredToken} o (err "sql: no rows in result set") (λ t. ok t))
      (find_token_row-revoked name (hash_token token) after.tokens
        (run_changes-IsKeyed codec hash_token cs db h))
    ∙ revoke-found name (find_token_row (hash_token token) after.tokens)

-- A token that is saved resolves to what was saved for it; any other token, as long as SHA-256 gives it
-- another hash, resolves to what it did before; and a client's name that stands with another token is
-- refused, which changes nothing.
pub get_client_token-save_client_token :
    (hash_token : String → String) (token other : String) (holder : StoredToken) (db : Db)
    → ((save_client_token hash_token none token holder db ≡ (db, err unique_failed))
        × (is_client_name_taken (record { token = hash_token token; holder = holder }) db.tokens
            ≡ true))
      ⊎ (((save_client_token hash_token none token holder db).1 ≡ ok tt)
          × (get_client_token hash_token none other
                (save_client_token hash_token none token holder db).0
              ≡ (if hash_token token === hash_token other
                  then ok holder
                  else get_client_token hash_token none other db)))
unfolding get_client_token save_client_token
get_client_token-save_client_token hash_token token other holder db =
    let row : TokenRow = record { token = hash_token token; holder = holder } in
    let found = find_token_row-upsert_token (hash_token other) row db.tokens in
    elim (Bool-cases (is_client_name_taken row db.tokens)) [
      | inl taken ↦ inl (let t = taken in ground arith, taken)
      | inr free ↦ inr (let f = free in ground arith, let f = free in ground arith)
    ]
