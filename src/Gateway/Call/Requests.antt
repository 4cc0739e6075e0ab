-- ===== src/Gateway/Call/Requests.antt =====
-- `ExecuteCall` sends requests to destinations that the policy allows, and to no others.
use the_black_hole.Prelude.{
  ℕ, zero, suc, ◌+◌, String, List, Option, none, some, not, ◌&&◌, ◌===◌, ltb, leb, is_set, ◌≡◌,
  refl, if_cases, on_option_cases,
}
use the_black_hole.Prelude.Results.{ℤ, Result, ok, on_result_cases}
use the_black_hole.Cache.{get}
use the_black_hole.Mcp.Types.{ApiConnection, ApiEndpoint}
use the_black_hole.Gateway.{
  Network, Sent, answered, failed, nothing, Round, done, again, judge_response, after, pause, retry,
  do_with_retry, attempts,
}
use the_black_hole.Gateway.Egress.{validate_egress}
use the_black_hole.Gateway.Render.{full_url, query_of}
use the_black_hole.Gateway.Call.{
  Environment, GatewayClient, Request, Params, get_secret, authorize, request_body, finish,
  conclude, send, dispatch, request_url, cached_response, execute_call,
}

-- What requests and waiting keep, `doWithRetry` keeps.
module _ {S : Type 0} (net : Network S) (P : S → Type 0)
    (requested : (s : S) → P s → P (net.do_request s).0)
    (waited : (b : ℤ) (s : S) → P s → P (net.wait b s).0) where
  pause-keeps : (attempt : ℕ) (s : S) → P s → P (pause net attempt s).0
  unfolding pause
  pause-keeps zero s h = h
  pause-keeps (suc n) s h = waited _ s h

  after-keeps :
      (r : Round) (s : S) (go_on : String → S × Sent)
      → P s
      → ((e : String) → P (go_on e).0)
      → P (after r s go_on).0
  after-keeps (done v) s go_on h k = h
  after-keeps (again e) s go_on h k = k e

  retry-keeps :
      (method : String) (left attempt : ℕ) (o : Option String) (s : S)
      → P s
      → P (retry net method left attempt o s).0
  unfolding retry
  retry-keeps method zero attempt none s h = h
  retry-keeps method zero attempt (some e) s h = h
  retry-keeps method (suc left) attempt o s h =
      let s1 = (pause net attempt s).0 in
      let h1 = pause-keeps attempt s h in
      on_option_cases (λ (r : S × Sent). P r.0) (pause net attempt s).1 _ _
        (λ n.
          after-keeps (judge_response method (ltb 0 left) (net.do_request s1).1)
            (net.do_request s1).0 _ (requested s1 h1)
            (λ e. retry-keeps method left (attempt + 1) (some e) _ (requested s1 h1)))
        (λ e stopped. h1)

  do_with_retry-keeps : (method : String) (s : S) → P s → P (do_with_retry net method s).0
  unfolding do_with_retry
  do_with_retry-keeps method s h = retry-keeps method (attempts net.max_retries method) 0 none s h

module _ {S A U : Type 0} (env : Environment S A U) where
  -- A request to a URL whose scheme and host pass `validateEgress`.
  abbrev pub IsAllowed : Request → Type 0
  IsAllowed req =
      (u : U) × (req.url ≡ env.url_text u)
      × (validate_egress env.resolver env.policy (env.scheme u) (env.hostname u) ≡ ok tt)

  request_url-IsAllowed :
      (ep : ApiEndpoint) (params : Params) (u : U)
      → ((q : List (String × String)) (u : U)
          → (env.scheme (env.with_query q u) ≡ env.scheme u)
            × (env.hostname (env.with_query q u) ≡ env.hostname u))
      → validate_egress env.resolver env.policy (env.scheme u) (env.hostname u) ≡ ok tt
      → (x : U) × (request_url env ep params u ≡ env.url_text x)
        × (validate_egress env.resolver env.policy (env.scheme x) (env.hostname x) ≡ ok tt)
  unfolding request_url
  request_url-IsAllowed ep params u queried passed =
      let q = query_of env.printer params.for_query ep.path in
      if_cases
        (λ (t : String).
          (x : U) × (t ≡ env.url_text x)
          × (validate_egress env.resolver env.policy (env.scheme x) (env.hostname x) ≡ ok tt))
        (ep.method === "GET") _ _
        (λ y. (env.with_query q u, refl, rw ((queried q u).0, (queried q u).1) passed))
        (λ n. (u, refl, passed))

  module _ (P : S → Type 0) (looked_up : (ref : String) (s : S) → P s → P (env.get_secret ref s).0)
      (requested : (req : Request)
        → IsAllowed req
        → (s : S) → P s
        → P ((env.network req).do_request s).0)
      (waited : (req : Request) (b : ℤ) (s : S) → P s → P ((env.network req).wait b s).0) where
    get_secret-keeps :
        (ref : String) (c : GatewayClient S) → P c.outside → P (get_secret env ref c).0.outside
    unfolding get_secret
    get_secret-keeps ref c h =
        let Q = λ (r : GatewayClient S × Result String). P r.0.outside in
        let h1 = looked_up ref c.outside h in
        on_option_cases Q (get (env.now c.outside) ref c.secret_cache) _ _
          (λ n. on_result_cases Q (env.get_secret ref c.outside).1 _ _ (λ e y. h1) (λ v y. h1))
          (λ v y. h)

    authorize-keeps :
        (conn : ApiConnection) (c : GatewayClient S)
        → P c.outside
        → P (authorize env conn c).0.outside
    unfolding authorize
    authorize-keeps conn c h =
        if_cases (λ (r : GatewayClient S × Result (List (String × String))). P r.0.outside)
          (not (conn.auth_type === "none") && is_set conn.auth_secret_ref) _ _
          (λ y. get_secret-keeps conn.auth_secret_ref c h) (λ n. h)

    conclude-keeps :
        (key method : String) (sent : Sent) (c : GatewayClient S)
        → P c.outside
        → P (conclude env key method sent c).0.outside
    unfolding conclude finish
    conclude-keeps key method (answered status body) c h =
        if_cases (λ (r : GatewayClient S × Result String). P r.0.outside) (leb 400 status) _ _
          (λ y. h)
          (λ n.
            if_cases (λ (c' : GatewayClient S). P c'.outside) (method === "GET") _ _ (λ y. h)
              (λ n. h))
    conclude-keeps key method (failed e) c h = h
    conclude-keeps key method nothing c h = h

    send-keeps :
        (key : String) (req : Request) (c : GatewayClient S)
        → IsAllowed req
        → P c.outside
        → P (send env key req c).0.outside
    unfolding send
    send-keeps key req c allowed h =
        conclude-keeps key req.method (do_with_retry (env.network req) req.method c.outside).1 _ (
          do_with_retry-keeps (env.network req) P (requested req allowed) (waited req) req.method
            c.outside h)

    dispatch-keeps :
        (url : String) (conn : ApiConnection) (ep : ApiEndpoint) (params : Params)
        (c : GatewayClient S)
        → ((headers : List (String × String)) (body : Option String)
            → IsAllowed (record { method = ep.method; url = url; headers = headers; body = body }))
        → P c.outside
        → P (dispatch env url conn ep params c).0.outside
    unfolding dispatch
    dispatch-keeps url conn ep params c allowed h =
        let Q = λ (r : GatewayClient S × Result String). P r.0.outside in
        on_result_cases Q (request_body env ep params) _ _ (λ e y. h)
          (λ body y.
            on_option_cases Q (env.request_fault ep.method url) _ _
              (λ n.
                let h1 = authorize-keeps conn c h in
                on_result_cases Q (authorize env conn c).1 _ _ (λ e y. h1)
                  (λ headers y. send-keeps _ _ _ (allowed headers body) h1))
              (λ e y. h))

    -- A property of everything outside that survives lookups in the vault, waiting, and each request to
    -- a URL that passes `validateEgress`, survives `ExecuteCall`, whatever the endpoint and the
    -- parameters are: no other request is sent. A query changes neither the scheme nor the host of a URL.
    pub execute_call-IsAllowed :
        (conn : ApiConnection) (ep : ApiEndpoint) (params : Params) (c : GatewayClient S)
        → ((q : List (String × String)) (u : U)
            → (env.scheme (env.with_query q u) ≡ env.scheme u)
              × (env.hostname (env.with_query q u) ≡ env.hostname u))
        → P c.outside
        → P (execute_call env conn ep params c).0.outside
    unfolding execute_call
    execute_call-IsAllowed conn ep params c queried h =
        let Q = λ (r : GatewayClient S × Result String). P r.0.outside in
        on_result_cases Q
          (env.parse_url (full_url env.printer params.for_path conn.base_url ep.path)) _ _
          (λ e y. h)
          (λ u y.
            on_result_cases Q
              (validate_egress env.resolver env.policy (env.scheme u) (env.hostname u)) _ _
              (λ e y. h)
              (λ passed z.
                on_option_cases Q (cached_response env (request_url env ep params u) ep c) _ _
                  (λ n.
                    dispatch-keeps _ conn ep params c
                      (λ headers body. request_url-IsAllowed ep params u queried z) h)
                  (λ v y. h)))
