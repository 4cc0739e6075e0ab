-- ===== src/Mcp/Samples.antt =====
-- A gateway with one endpoint and one client, for the tests. What is outside is a count of the changes
-- that only an administrator makes.
use the_black_hole.Prelude.{ℕ, ◌+◌, [], ◌∷◌, none, some, true, ◌===◌, if◌then◌else◌}
use the_black_hole.Prelude.Results.{ok}
use the_black_hole.Json.{end, text}
use the_black_hole.Redaction.{CompiledRule, Redactor}
use the_black_hole.ToolIntegrity.{Codec}
use the_black_hole.Mcp.Types.{ApiConnection, ApiEndpoint, StoredToken, Caller, RpcRequest, Services}
use the_black_hole.Mcp.Server.{McpServer}
use the_black_hole.Mcp.Transport.{HttpRequest}

abbrev pub weather : ApiConnection
weather = record {
  id = "c1";
  name = "Weather";
  description = "";
  base_url = "https://weather.example";
  auth_type = "none";
  auth_secret_ref = "";
  enabled = true;
  tool_prefix = "w_";
}

-- It was approved under the hash "w_now", which is what the codec below gives.
abbrev pub now : ApiEndpoint
now = record {
  id = "e1";
  connection_id = "c1";
  tool_name = "now";
  tool_description = "";
  path = "/now";
  method = "GET";
  parameters_schema = "";
  template = "";
  definition_hash = "w_now";
  version = 1;
}

abbrev pub codec : Codec
codec = record {
  parse = λ s. none;
  encode_scalar = λ v. "v";
  marshal = λ d. d.name;
  digest = λ s. s;
}

abbrev pub reader : StoredToken
reader = record { client_name = "reader"; client_role = "user"; scopes = "w_*"; enabled = true }

abbrev pub client : Caller
client = record { identity = "reader"; role = "user"; scopes = "w_*" ∷ [] }

abbrev pub services : Services ℕ
services = record {
  gateway_token = "m";
  digest = λ s. s;
  get_client_token = λ token s. if token === "t" then some reader else none;
  oauth = none;
  get_all_endpoints = λ s. ok (now ∷ []);
  get_connections = λ s. ok (weather ∷ []);
  save_connection = λ conn s. (s + 1, ok tt);
  save_endpoint = λ ep s. (s + 1, ok tt);
  set_secret = λ key value s. (s + 1, ok tt);
  log_audit = λ e s. s;
  execute_call = λ conn ep args s. (s, ok "sunny");
  new_uuid = λ s. (s, "u");
  elapsed = λ before after. 0;
  unmarshal_call = λ params. if params === "now" then some ("w_now", end) else none;
  quote = λ s. s;
  equal_fold = λ s t. s === t;
  codec = codec;
  redactor = none;
  tool_pinning_strict = true;
  cors_origins = [];
  max_sessions = 2;
}

abbrev pub call : RpcRequest
call = record { method = "tools/call"; params = "now"; id = some (text "1") }

abbrev pub server : McpServer ℕ
server = record { backend = 0; audit_ch = []; active_queries = 0; sessions = [] }

abbrev pub post : HttpRequest
post = record {
  method = "POST";
  authorization = "Bearer t";
  origin = "";
  token_param = "";
  session_param = "u";
  body = some call;
}

-- The same gateway, with a redaction that masks what its one tool gives.
abbrev pub sun : CompiledRule
sun = record {
  class = "sun";
  find_all = λ s. if s === "sunny" then (record { start = 0; stop = 5 } ∷ []) else [];
  expand = λ template s m. template;
  validate = none;
  replace_tpl = "";
}

abbrev pub redactor : Redactor
redactor = record { enabled = true; rules = sun ∷ [] }

abbrev pub masking : Services ℕ
masking = record services { redactor = some redactor }
