-- ===== src/Gateway/Samples.antt =====
-- A resolver of names and a gateway for the tests.
use the_black_hole.Prelude.{
  ℕ, ◌+◌, String, [], ◌∷◌, none, some, false, true, ◌==◌, ltb, ◌<>◌, ◌===◌,
}
use the_black_hole.Prelude.Results.{pos, ok, err}
use the_black_hole.Cache.{new}
use the_black_hole.Json.{text, field, end}
use the_black_hole.Mcp.Types.{ApiConnection, ApiEndpoint}
use the_black_hole.Gateway.Egress.{EgressPolicy, Resolver}
use the_black_hole.Gateway.Call.{Environment, GatewayClient, Params}

-- Addresses are numbers, of which those below ten are private; a host has the two addresses 11 and 12.
abbrev pub resolver : Resolver ℕ
resolver = record {
  unmap = λ n. n;
  is_loopback = λ n. n == 0;
  is_private = λ n. ltb n 10;
  is_link_local_unicast = λ n. false;
  is_link_local_multicast = λ n. false;
  is_unspecified = λ n. false;
  parse_addr = λ host. none;
  lookup_ip = λ host. ok (some 11 ∷ some 12 ∷ []);
  lookup_net_ip = λ host. ok (11 ∷ 12 ∷ []);
  addr_text = λ n. "11";
  split_host_port = λ addr. ok ("api.example", "443");
  join_host_port = λ host port. host <> ":" <> port;
  quote = λ s. s;
  equal_fold = λ s t. s === t;
}

abbrev pub closed_policy : EgressPolicy
closed_policy = record { allowlist = []; allow_private = false }

-- The state counts what is asked of the vault and of the network; every request is answered.
abbrev pub environment : Environment ℕ ℕ String
environment = record {
  printer = record { marshal = λ v. ok "1"; show = λ v. "1" };
  resolver = resolver;
  policy = closed_policy;
  parse_url = λ s. ok s;
  scheme = λ u. "https";
  hostname = λ u. "api.example";
  with_query = λ q u. u;
  url_text = λ u. u;
  request_fault = λ method url. none;
  canonical = λ s. s;
  base64 = λ s. s;
  unmarshal_headers = λ s. err "no JSON";
  get_secret = λ ref n. (n + 1, ok "s");
  network = λ req. record {
    do_request = λ n. (n + 1, ok (record { status = 200; body = ok [] }));
    wait = λ b n. (n, none);
    max_retries = pos 2;
  };
  decode = λ b. "sunny";
  indent = λ s. none;
  now = λ n. n;
}

abbrev pub client : GatewayClient ℕ
client = record { secret_cache = none; resp_cache = some (new (pos 30)); outside = 0 }

abbrev pub api : (id auth_type : String) → ApiConnection
api id auth_type = record {
  id = id;
  name = id;
  description = "";
  base_url = "https://api.example";
  auth_type = auth_type;
  auth_secret_ref = "key";
  enabled = true;
  tool_prefix = "";
}

abbrev pub city : ApiEndpoint
city = record {
  id = "e1";
  connection_id = "c1";
  tool_name = "city";
  tool_description = "";
  path = "/cities/{{name}}";
  method = "GET";
  parameters_schema = "";
  template = "";
  definition_hash = "";
  version = 1;
}

abbrev pub params : Params
params =
    let fields = field "name" (text "a/b") end in
    record { all = fields; for_path = fields; for_query = fields; for_body = fields }
