-- ===== src/Storage/Tokens.antt =====
-- The tokens of clients in pkg/storage/db.go. SHA-256 is a parameter.
pub mod Revocation
use the_black_hole.Prelude.{
  String, List, [], ◌∷◌, Option, none, some, Bool, true, false, not, ◌&&◌, ◌||◌, ◌===◌,
  if◌then◌else◌, on_option, keep_if,
}
use the_black_hole.Prelude.Results.{Result, ok, err}
use the_black_hole.Mcp.Types.{StoredToken}
use the_black_hole.Storage.{Db, TokenRow, unique_failed}

unfoldable pub upsert_token : TokenRow → List TokenRow → List TokenRow
upsert_token t [] = t ∷ []
upsert_token t (row ∷ rows) =
    let rest = upsert_token t rows in if row.token === t.token then t ∷ rows else row ∷ rest

-- The constraint `UNIQUE` on the name of a client: has another row the name?
unfoldable pub is_client_name_taken : TokenRow → List TokenRow → Bool
is_client_name_taken t [] = false
is_client_name_taken t (row ∷ rows) =
    (row.holder.client_name === t.holder.client_name && not (row.token === t.token))
    || is_client_name_taken t rows

-- `SELECT … FROM client_tokens WHERE token = ?`
unfoldable pub find_token_row : (token : String) → List TokenRow → Option StoredToken
find_token_row token [] = none
find_token_row token (row ∷ rows) =
    let rest = find_token_row token rows in if row.token === token then some row.holder else rest

-- `GetClientToken`; the stored hash is not handed out.
unfoldable pub get_client_token :
    (hash_token : String → String)
    → (fault : Option String) → (token : String) → Db
    → Result StoredToken
unfolding find_token_row
get_client_token hash_token (some e) token db = err e
get_client_token hash_token none token db =
    on_option (find_token_row (hash_token token) db.tokens) (err "sql: no rows in result set")
      (λ t. ok t)

-- `SaveClientToken`
unfoldable pub save_client_token :
    (hash_token : String → String)
    → (fault : Option String) → (token : String) → StoredToken
    → Db
    → Db × Result (Unit {0})
unfolding upsert_token is_client_name_taken
save_client_token hash_token (some e) token holder db = (db, err e)
save_client_token hash_token none token holder db =
    let row : TokenRow = record { token = hash_token token; holder = holder } in
    if is_client_name_taken row db.tokens
    then (db, err unique_failed)
    else (record db { tokens = upsert_token row db.tokens }, ok tt)

-- `DeleteClientToken` and `DeleteClientTokenByName`
unfoldable pub delete_client_token :
    (hash_token : String → String)
    → (fault : Option String) → (token : String) → Db
    → Db × Result (Unit {0})
delete_client_token hash_token (some e) token db = (db, err e)
delete_client_token hash_token none token db =
    (record db { tokens = keep_if (λ row. not (row.token === hash_token token)) db.tokens }, ok tt)

unfoldable pub delete_client_token_by_name :
    (fault : Option String) → (name : String) → Db → Db × Result (Unit {0})
delete_client_token_by_name (some e) name db = (db, err e)
delete_client_token_by_name none name db =
    (record db { tokens = keep_if (λ row. not (row.holder.client_name === name)) db.tokens }, ok tt)
