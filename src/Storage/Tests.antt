-- ===== src/Storage/Tests.antt =====
-- The theorems on the store at concrete runs.
use the_black_hole.Prelude.{
  ℕ, String, List, [], ◌∷◌, some, none, true, false, ◌<>◌, ◌≡◌, refl, eq_iff,
}
use the_black_hole.Prelude.Results.{pos, ok}
use the_black_hole.Cache.{new, get, find, enabled, is_positive, fresh_value}
use the_black_hole.ToolIntegrity.{hash}
use the_black_hole.Mcp.Types.{Services}
use the_black_hole.Mcp.Tools.{tool_definition_changed, find_endpoint}
use the_black_hole.Mcp.Samples.{weather, now, codec, services, reader}
use the_black_hole.Storage.{Db, get_all_endpoints, get_connections}
use the_black_hole.Storage.Tokens.{get_client_token, delete_client_token_by_name}
use the_black_hole.Storage.Runs.{
  Change, connection_saved, endpoint_saved, endpoints_read, token_saved, run_changes,
}
use the_black_hole.Storage.Hashes.{AllStamped, run_changes-AllStamped}
use the_black_hole.Storage.Caches.{IsCoherent, uncached, cached_reads}
use the_black_hole.Storage.Pins.{tool_definition_changed-resolved_name}
use the_black_hole.Storage.Tokens.Revocation.{revoke, get_client_token-delete_client_token_by_name}

abbrev empty_db : Db
empty_db = record {
  connections = [];
  endpoints = [];
  tokens = [];
  foreign_keys = false;
  conn_cache = some (new (pos 30));
  ep_cache = some (new (pos 30));
}

empty_db-IsCoherent : IsCoherent empty_db
unfolding get find new enabled is_positive fresh_value
empty_db-IsCoherent = ((λ t v h. cc), (λ t v h. cc))

abbrev sharp : String → String
sharp s = "#" <> s

-- A connection, an endpoint and a token are saved, and the endpoints are read.
abbrev saved : List Change
saved =
    endpoints_read 7 none
    ∷ endpoint_saved none none now
    ∷ connection_saved none weather
    ∷ token_saved none "t" reader
    ∷ []

run_changes-AllStamped_example : AllStamped codec (run_changes codec sharp saved empty_db)
run_changes-AllStamped_example = run_changes-AllStamped codec sharp saved empty_db tt

cached_reads_example :
    ((get_all_endpoints 9 none (run_changes codec sharp saved empty_db)).1
      ≡ (get_all_endpoints 9 none (run_changes codec sharp saved (uncached empty_db))).1)
    × ((get_connections 9 none (run_changes codec sharp saved empty_db)).1
        ≡ (get_connections 9 none (run_changes codec sharp saved (uncached empty_db))).1)
cached_reads_example = cached_reads codec sharp saved empty_db 9 empty_db-IsCoherent

-- The gateway of the samples, over this store.
abbrev stored : Services ℕ
stored = record services {
  get_all_endpoints = λ s. (get_all_endpoints 9 none (run_changes codec sharp saved empty_db)).1;
}

tool_definition_changed-resolved_name_example : tool_definition_changed stored "w_now" 0 ≡ ok true
unfolding find_endpoint get_all_endpoints run_changes new hash
tool_definition_changed-resolved_name_example =
    tool_definition_changed-resolved_name stored 0 "w_now" (record now { definition_hash = "now" })
      weather sharp saved empty_db 9 tt empty_db-IsCoherent refl refl refl
      (λ e. let test = (eq_iff "now" "").1 e in cc)
      (λ e. let test = (eq_iff "w_now" "now").1 e in cc)

get_client_token-delete_client_token_by_name_example :
    get_client_token sharp none "t"
      (delete_client_token_by_name none "reader" (run_changes codec sharp saved empty_db)).0
    ≡ revoke "reader" (get_client_token sharp none "t" (run_changes codec sharp saved empty_db))
get_client_token-delete_client_token_by_name_example =
    get_client_token-delete_client_token_by_name codec sharp saved empty_db "reader" "t" tt
