-- ===== src/Gateway/Call/Caching.antt =====
-- What `ExecuteCall` leaves in the cache of responses, and who gets it.
use the_black_hole.Prelude.{
  ℕ, ◌<◌, ◌∙◌, on_option, String, List, Option, none, some, not, ◌&&◌, ◌===◌, ◌<>◌, leb, is_set,
  ◌≡◌, ◌⊎◌, inl, inr, refl, if_cases, on_option_cases, if◌then◌else◌, arith,
}
use the_black_hole.Prelude.Results.{Result, ok, err, on_result_cases}
use the_black_hole.Cache.{TtlCache, get, set}
use the_black_hole.Mcp.Types.{ApiConnection, ApiEndpoint}
use the_black_hole.Gateway.{Sent, answered, failed, nothing, do_with_retry}
use the_black_hole.Gateway.Egress.{validate_egress}
use the_black_hole.Gateway.Render.{full_url}
use the_black_hole.Gateway.Call.{
  Environment, GatewayClient, Request, Params, get_secret, authorize, request_body, finish,
  conclude, send, dispatch, request_url, cached_response, execute_call,
}

module _ {S A U : Type 0} (env : Environment S A U) where
  -- An output is that of a response: its status is below 400, and the output is its body, indented where
  -- that is JSON.
  abbrev pub IsOutput : (sent : Sent) (out : String) → Type 0
  IsOutput sent out =
      (status : ℕ) × (body : List ℕ) × (sent ≡ answered status body)
      × (status < 400)
      × (out ≡ on_option (env.indent (env.decode body)) (env.decode body) (λ pretty. pretty))

  -- The outcome of a request: an error, with the cache of responses as it was, or the output of what was
  -- sent back, which the cache has under a key if the method is GET.
  abbrev Caches :
      (key method : String)
      → Sent
      → Option (TtlCache String)
      → GatewayClient S × Result String
      → Type 0
  Caches key method sent cache r =
      ((e : String) × (r.1 ≡ err e) × (r.0.resp_cache ≡ cache))
      ⊎ ((out : String) × (r.1 ≡ ok out)
          × (r.0.resp_cache
              ≡ (if method === "GET" then set (env.now r.0.outside) key out cache else cache))
          × IsOutput sent out)

  conclude-Caches :
      (key method : String) (sent : Sent) (c : GatewayClient S)
      → Caches key method sent c.resp_cache (conclude env key method sent c)
  unfolding conclude finish
  conclude-Caches key method (answered status body) c =
      if_cases (Caches key method (answered status body) c.resp_cache) (leb 400 status) _ _
        (λ y. inl (_, refl, refl))
        (λ n. inr (_, refl, ground arith, (status, body, refl, ground arith, refl)))
  conclude-Caches key method (failed e) c = inl (e, refl, refl)
  conclude-Caches key method nothing c = inl ("", refl, refl)

  -- What `doWithRetry` gives for a request.
  abbrev pub sent_back : Request → S → Sent
  sent_back req s = (do_with_retry (env.network req) req.method s).1

  send-Caches :
      (key : String) (req : Request) (c : GatewayClient S)
      → Caches key req.method (sent_back req c.outside) c.resp_cache (send env key req c)
  unfolding send
  send-Caches key req c =
      let r = do_with_retry (env.network req) req.method c.outside in
      conclude-Caches key req.method r.1 (record c { outside = r.0 })

  get_secret-resp_cache :
      (ref : String) (c : GatewayClient S) → (get_secret env ref c).0.resp_cache ≡ c.resp_cache
  unfolding get_secret
  get_secret-resp_cache ref c =
      let Q = λ (r : GatewayClient S × Result String). r.0.resp_cache ≡ c.resp_cache in
      on_option_cases Q (get (env.now c.outside) ref c.secret_cache) _ _
        (λ n. on_result_cases Q (env.get_secret ref c.outside).1 _ _ (λ e y. refl) (λ v y. refl))
        (λ v y. refl)

  authorize-resp_cache :
      (conn : ApiConnection) (c : GatewayClient S)
      → (authorize env conn c).0.resp_cache ≡ c.resp_cache
  unfolding authorize
  authorize-resp_cache conn c =
      if_cases
        (λ (r : GatewayClient S × Result (List (String × String))). r.0.resp_cache ≡ c.resp_cache)
        (not (conn.auth_type === "none") && is_set conn.auth_secret_ref) _ _
        (λ y. get_secret-resp_cache conn.auth_secret_ref c) (λ n. refl)

  -- The URL to which a call would send its request: one that parses and passes `validateEgress`.
  abbrev pub Resolves : ApiConnection → ApiEndpoint → Params → (url : String) → Type 0
  Resolves conn ep params url =
      (u : U) × (env.parse_url (full_url env.printer params.for_path conn.base_url ep.path) ≡ ok u)
      × (validate_egress env.resolver env.policy (env.scheme u) (env.hostname u) ≡ ok tt)
      × (request_url env ep params u ≡ url)

  -- The request of a call to a URL: its body, and the headers with the credentials of the connection.
  abbrev pub IsRequestOf :
      (url : String) → ApiConnection → ApiEndpoint → Params → GatewayClient S → Request → Type 0
  IsRequestOf url conn ep params c req =
      (req.method ≡ ep.method)
      × (req.url ≡ url)
      × (request_body env ep params ≡ ok req.body)
      × ((authorize env conn c).1 ≡ ok req.headers)

  -- A failure that leaves the cache, or the output of the response to the request of the call, which the
  -- cache has from then on if the method is GET.
  abbrev pub Asks :
      (url : String)
      → ApiConnection
      → ApiEndpoint
      → Params
      → GatewayClient S
      → GatewayClient S × Result String
      → Type 0
  Asks url conn ep params c r =
      ((e : String) × (r.1 ≡ err e) × (r.0.resp_cache ≡ c.resp_cache))
      ⊎ ((out : String) × (r.1 ≡ ok out)
          × (r.0.resp_cache ≡ (
              if ep.method === "GET"
              then set (env.now r.0.outside) (ep.method <> " " <> url) out c.resp_cache
              else c.resp_cache))
          × (req : Request) × IsRequestOf url conn ep params c req
          × IsOutput (sent_back req (authorize env conn c).0.outside) out)

  authorized-Asks :
      (url : String) (conn : ApiConnection) (ep : ApiEndpoint) (params : Params)
      (c : GatewayClient S) (req : Request)
      → IsRequestOf url conn ep params c req
      → Asks url conn ep params c (send env (ep.method <> " " <> url) req (authorize env conn c).0)
  authorized-Asks url conn ep params c req is =
      let kept = authorize-resp_cache conn c in
      elim (send-Caches (ep.method <> " " <> url) req (authorize env conn c).0) [
        | inl (e, failing, same) ↦ inl (e, failing, same ∙ kept)
        | inr (out, said, stored, output) ↦
            inr (out, said, rw (stored, is.0, kept) refl, req, is, output)
      ]

  dispatch-Asks :
      (url : String) (conn : ApiConnection) (ep : ApiEndpoint) (params : Params)
      (c : GatewayClient S)
      → Asks url conn ep params c (dispatch env url conn ep params c)
  unfolding dispatch
  dispatch-Asks url conn ep params c =
      let Q = Asks url conn ep params c in
      on_result_cases Q (request_body env ep params) _ _ (λ e y. inl (e, refl, refl))
        (λ body rendered.
          on_option_cases Q (env.request_fault ep.method url) _ _
            (λ n.
              on_result_cases Q (authorize env conn c).1 _ _
                (λ e y. inl (e, refl, authorize-resp_cache conn c))
                (λ headers allowed.
                  authorized-Asks url conn ep params c _ (refl, refl, rendered, allowed)))
            (λ e y. inl (_, refl, refl)))

  -- A failure that leaves the cache; an answer that the cache has for the method and the URL, which
  -- changes nothing; or the output of the response to the request, which the cache has from then on if
  -- the method is GET.
  abbrev pub Answers :
      ApiConnection
      → ApiEndpoint
      → Params
      → GatewayClient S
      → GatewayClient S × Result String
      → Type 0
  Answers conn ep params c r =
      ((e : String) × (r.1 ≡ err e) × (r.0.resp_cache ≡ c.resp_cache))
      ⊎ ((url : String) × Resolves conn ep params url
          × (((v : String) × (cached_response env url ep c ≡ some v) × (r ≡ (c, ok v)))
              ⊎ ((cached_response env url ep c ≡ none) × Asks url conn ep params c r)))

  -- A call does one of three things to the cache of responses. It fails, and leaves it; it answers what
  -- the cache has for its method and URL, and changes nothing; or it answers the body, indented where that
  -- is JSON, of the response to its request, whose status is below 400, and a GET request, and no other,
  -- puts this answer there.
  pub execute_call-Answers :
      (conn : ApiConnection) (ep : ApiEndpoint) (params : Params) (c : GatewayClient S)
      → Answers conn ep params c (execute_call env conn ep params c)
  unfolding execute_call
  execute_call-Answers conn ep params c =
      let Q = Answers conn ep params c in
      on_result_cases Q (env.parse_url (full_url env.printer params.for_path conn.base_url ep.path))
        _ _ (λ e y. inl (_, refl, refl))
        (λ u parsed.
          on_result_cases Q
            (validate_egress env.resolver env.policy (env.scheme u) (env.hostname u)) _ _
            (λ e y. inl (_, refl, refl))
            (λ passed good.
              let url = request_url env ep params u in
              let found : Resolves conn ep params url = (u, parsed, good, refl) in
              on_option_cases Q (cached_response env url ep c) _ _
                (λ missed. inr (url, found, inr (missed, dispatch-Asks url conn ep params c)))
                (λ v hit. inr (url, found, inl (v, hit, refl)))))
