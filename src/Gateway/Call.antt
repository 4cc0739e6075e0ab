-- ===== src/Gateway/Call.antt =====
-- pkg/gateway/client.go: `ExecuteCall`. What the packages net/url and net/http, the vault and the
-- network do is a parameter.
pub mod Requests
pub mod Caching
pub mod Sharing
mod Tests
use the_black_hole.Prelude.{
  ℕ, String, List, [], ◌∷◌, Option, none, some, Bool, not, ◌&&◌, ◌||◌, ◌===◌, ◌<>◌, Char, code,
  ◌==◌, leb, decimal, is_set, if◌then◌else◌, on_option,
}
use the_black_hole.Prelude.Results.{Result, ok, err, on_result}
use the_black_hole.Json.{object, Fields}
use the_black_hole.Cache.{TtlCache, get, set}
use the_black_hole.Mcp.Types.{ApiConnection, ApiEndpoint}
use the_black_hole.Gateway.{Network, Sent, answered, failed, nothing, do_with_retry}
use the_black_hole.Gateway.Egress.{EgressPolicy, Resolver, validate_egress}
use the_black_hole.Gateway.Render.{Printer, full_url, query_of, render_body}

-- A request, with its headers under their canonical names.
pub record Request : Type 0 where
  pub method : String
  pub url : String
  pub headers : List (String × String)
  pub body : Option String

-- The code that `ExecuteCall` calls, over the state `S` of everything outside, addresses `A` and parsed
-- URLs `U`. `with_query` is `Query`, a `Set` for each pair, `Encode` and the write to `RawQuery`;
-- `request_fault` is the error of `NewRequestWithContext`; `indent` is none where the text is no JSON.
pub record Environment (S A U : Type 0) : Type 0 where
  pub printer : Printer
  pub resolver : Resolver A
  pub policy : EgressPolicy
  pub parse_url : String → Result U
  pub scheme : U → String
  pub hostname : U → String
  pub with_query : List (String × String) → U → U
  pub url_text : U → String
  pub request_fault : (method url : String) → Option String
  pub canonical : String → String
  pub base64 : String → String
  pub unmarshal_headers : String → Result (List (String × String))
  pub get_secret : (ref : String) → S → S × Result String
  pub network : Request → Network S
  pub decode : List ℕ → String
  pub indent : String → Option String
  pub now : S → ℕ

-- `GatewayClient`: its caches, and everything outside.
pub record GatewayClient (S : Type 0) : Type 0 where
  pub secret_cache : Option (TtlCache String)
  pub resp_cache : Option (TtlCache String)
  pub outside : S

-- The parameters of a call, and the orders in which its three loops over them meet them.
pub record Params : Type 0 where
  pub all : Fields
  pub for_path : Fields
  pub for_query : Fields
  pub for_body : Fields

-- `Header.Set`
unfoldable pub header_set : (key value : String) → List (String × String) → List (String × String)
header_set key value [] = (key, value) ∷ []
header_set key value ((k, v) ∷ hs) =
    let rest = header_set key value hs in if k === key then (key, value) ∷ hs else (k, v) ∷ rest

abbrev pub default_headers : List (String × String)
default_headers =
    ("Content-Type", "application/json")
    ∷ ("Accept", "application/json")
    ∷ ("User-Agent", "MCP-API-Gateway/1.0")
    ∷ []

-- Has a text a colon?
unfoldable pub has_colon : String → Bool
has_colon String.[] = Bool.false
has_colon (String.◌∷◌ c s) = code c == b':' || has_colon s

module _ {S A U : Type 0} (env : Environment S A U) where
  -- `getSecret`
  unfoldable pub get_secret : (ref : String) → GatewayClient S → GatewayClient S × Result String
  unfolding get set
  get_secret ref c =
      on_option (get (env.now c.outside) ref c.secret_cache)
        (let (s, r) = env.get_secret ref c.outside in
          on_result r (λ e. (record c { outside = s }, err e))
            (λ val. (
              record c { outside = s; secret_cache = set (env.now s) ref val c.secret_cache },
              ok val,
            )))
        (λ v. (c, ok v))

  unfoldable pub set_headers :
      List (String × String) → List (String × String) → List (String × String)
  unfolding header_set
  set_headers [] hs = hs
  set_headers ((k, v) ∷ more) hs = set_headers more (header_set (env.canonical k) v hs)

  -- The `switch` over the type of authentication. `SetBasicAuth` joins again what `SplitN` split.
  unfoldable pub credentials :
      (auth_type secret : String) → List (String × String) → Result (List (String × String))
  unfolding header_set has_colon set_headers
  credentials auth_type secret hs =
      if auth_type === "bearer"
      then ok (header_set "Authorization" ("Bearer " <> secret) hs)
      else if auth_type === "basic"
      then (if has_colon secret
          then ok (header_set "Authorization" ("Basic " <> env.base64 secret) hs)
          else err "basic auth secret must be in 'username:password' format")
      else if auth_type === "custom_headers"
      then on_result (env.unmarshal_headers secret)
          (λ e. err ("custom headers secret must be a valid JSON map: " <> e))
          (λ headers. ok (set_headers headers hs))
      else err ("unsupported auth type: " <> auth_type)

  -- Step 5: the headers, with the credentials of a connection.
  unfoldable pub authorize :
      ApiConnection → GatewayClient S → GatewayClient S × Result (List (String × String))
  unfolding get_secret credentials
  authorize conn c =
      if not (conn.auth_type === "none") && is_set conn.auth_secret_ref
      then (let (c', r) = get_secret conn.auth_secret_ref c in
          (
            c',
            on_result r (λ e. err ("failed to retrieve authorization secret from vault: " <> e))
                (λ secret. credentials conn.auth_type secret default_headers),
          ))
      else (c, ok default_headers)

  -- Step 3: the body.
  unfoldable pub request_body : ApiEndpoint → Params → Result (Option String)
  unfolding render_body
  request_body ep params =
      if ep.method === "GET" || ep.method === "DELETE"
      then ok none
      else if is_set ep.template
      then ok (some (render_body env.printer params.for_body ep.template))
      else on_result (env.printer.marshal (object params.all))
          (λ e. err ("failed to encode body payload: " <> e)) (λ payload. ok (some payload))

  -- Step 7: the output that a body gives, which only a GET request leaves in the cache.
  unfoldable pub finish :
      (cache_key method body : String) → GatewayClient S → GatewayClient S × Result String
  unfolding set
  finish cache_key method body c =
      let out = on_option (env.indent body) body (λ pretty. pretty) in
      (
        if method === "GET"
            then record c { resp_cache = set (env.now c.outside) cache_key out c.resp_cache }
            else c,
        ok out,
      )

  -- What is made of the value of `doWithRetry`. With neither a response nor an error, which only the
  -- largest number of retries gives, the code panics at the status; that stands as an error here.
  unfoldable pub conclude :
      (cache_key method : String) → Sent → GatewayClient S → GatewayClient S × Result String
  unfolding finish
  conclude cache_key method (answered status body) c =
      if leb 400 status
      then (
        c,
        err ("target API returned error status " <> decimal status <> ": " <> env.decode body),
      )
      else finish cache_key method (env.decode body) c
  conclude cache_key method (failed e) c = (c, err e)
  conclude cache_key method nothing c = (c, err "")

  -- Steps 6 and 7.
  unfoldable pub send :
      (cache_key : String) → Request → GatewayClient S → GatewayClient S × Result String
  unfolding do_with_retry conclude
  send cache_key req c =
      let (s, sent) = do_with_retry (env.network req) req.method c.outside in
      conclude cache_key req.method sent (record c { outside = s })

  -- From step 3 on.
  unfoldable pub dispatch :
      (url : String)
      → ApiConnection
      → ApiEndpoint
      → Params
      → GatewayClient S
      → GatewayClient S × Result String
  unfolding request_body authorize send
  dispatch url conn ep params c =
      on_result (request_body ep params) (λ e. (c, err e))
        (λ body.
          on_option (env.request_fault ep.method url)
            (let (c', r) = authorize conn c in
              on_result r (λ e. (c', err e))
                (λ headers.
                  send (ep.method <> " " <> url)
                    (record { method = ep.method; url = url; headers = headers; body = body }) c'))
            (λ e. (c, err ("failed to create http request: " <> e))))

  -- The URL of a request, with the query of a GET request.
  unfoldable pub request_url : ApiEndpoint → Params → U → String
  unfolding query_of
  request_url ep params url =
      if ep.method === "GET"
      then env.url_text (env.with_query (query_of env.printer params.for_query ep.path) url)
      else env.url_text url

  -- The body that the cache of responses has.
  unfoldable pub cached_response : (url : String) → ApiEndpoint → GatewayClient S → Option String
  unfolding get
  cached_response url ep c =
      if ep.method === "GET"
      then get (env.now c.outside) (ep.method <> " " <> url) c.resp_cache
      else none

  -- `ExecuteCall`
  unfoldable pub execute_call :
      ApiConnection → ApiEndpoint → Params → GatewayClient S → GatewayClient S × Result String
  unfolding full_url validate_egress request_url cached_response dispatch
  execute_call conn ep params c =
      let full = full_url env.printer params.for_path conn.base_url ep.path in
      on_result (env.parse_url full)
        (λ e. (c, err ("invalid rendered URL " <> env.resolver.quote full <> ": " <> e)))
        (λ u.
          on_result (validate_egress env.resolver env.policy (env.scheme u) (env.hostname u))
            (λ e. (c, err ("egress denied: " <> e)))
            (λ _.
              let url = request_url ep params u in
              on_option (cached_response url ep c) (dispatch url conn ep params c)
                (λ v. (c, ok v))))
