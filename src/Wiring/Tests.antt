-- ===== src/Wiring/Tests.antt =====
-- The theorem on the whole server at a concrete run.
use the_black_hole.Prelude.{
  ℕ, ◌+◌, ◌≤◌, [], ◌∷◌, none, true, false, ◌===◌, ◌<>◌, ◌≡◌, refl, inl, inr, eq_iff, arith,
}
use the_black_hole.Prelude.Results.{ok}
use the_black_hole.Mcp.Types.{Services}
use the_black_hole.Mcp.Auth.{MayAdminister, extract_token}
use the_black_hole.Mcp.Server.{McpServer}
use the_black_hole.Mcp.Samples.{codec, reader, weather, now, post}
use the_black_hole.Mcp.Transport.{streamable, run_events}
use the_black_hole.Gateway.Samples.{environment, client, params}
use the_black_hole.Cache.{is_enabled}
use the_black_hole.Storage.{get_connections, get_all_endpoints}
use the_black_hole.Wiring.{Backend, Outside, wired}
use the_black_hole.Wiring.Containment.{run_events-Contained}

-- The state of the network counts; every identifier is the same.
abbrev outside : Outside ℕ
outside = record {
  hash_token = λ s. "#" <> s;
  order = λ args. record params { all = args };
  log_audit = λ e n. n + 1;
  new_uuid = λ n. (n + 1, "u");
  set_secret = λ key value n. (n + 1, ok tt);
}

abbrev settings : Services (Backend ℕ)
settings = record {
  gateway_token = "m";
  digest = λ s. s;
  get_client_token = λ token b. none;
  oauth = none;
  get_all_endpoints = λ b. ok [];
  get_connections = λ b. ok [];
  save_connection = λ c b. (b, ok tt);
  save_endpoint = λ e b. (b, ok tt);
  set_secret = λ key value b. (b, ok tt);
  log_audit = λ e b. b;
  execute_call = λ conn ep args b. (b, ok "");
  new_uuid = λ b. (b, "");
  elapsed = λ before after. 0;
  unmarshal_call = λ s. none;
  quote = λ s. s;
  equal_fold = λ s t. s === t;
  codec = codec;
  redactor = none;
  tool_pinning_strict = false;
  cors_origins = [];
  max_sessions = 2;
}

abbrev start : McpServer (Backend ℕ)
start = record {
  backend = record {
    db = record {
      connections = weather ∷ [];
      endpoints = now ∷ [];
      tokens = record { token = "#t"; holder = reader } ∷ [];
      foreign_keys = true;
      conn_cache = none;
      ep_cache = none;
    };
    client = record client { outside = 1 };
  };
  audit_ch = [];
  active_queries = 0;
  sessions = [];
}

-- The token "t" may not administer the gateway.
ordinary : MayAdminister (wired environment outside settings) "t" start.backend → ⊥
unfolding wired
ordinary (inl (set, e)) = let test = (eq_iff "t" "m").1 e in cc
ordinary (inr (ct, found, on, admin)) = let test = (eq_iff "user" "admin").1 cc in cc

run_events-Contained_example :
    let after : Backend ℕ =
      (run_events (wired environment outside settings) (streamable post ∷ []) start).backend in
    (after.db ≡ start.backend.db)
    × ((get_connections 5 none after.db).0 ≡ start.backend.db)
    × ((get_all_endpoints 5 none after.db).0 ≡ start.backend.db)
    × (1 ≤ after.client.outside)
unfolding extract_token run_events wired is_enabled
run_events-Contained_example =
    run_events-Contained environment outside settings (λ n. 1 ≤ n) (λ ref s h. omega (arith, h))
      (λ req allowed s h. omega (arith, h)) (λ req b s h. h) (λ e s h. omega (arith, h))
      (λ s h. omega (arith, h)) (λ q u. (refl, refl)) 5 (streamable post ∷ []) start (refl, refl)
      (ordinary, tt) tt (omega arith)
