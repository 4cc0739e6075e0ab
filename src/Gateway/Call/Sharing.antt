-- ===== src/Gateway/Call/Sharing.antt =====
-- Who gets what the cache of responses has.
use the_black_hole.Prelude.{
  ℕ, ◌+◌, ◌≤◌, ◌<◌, String, none, some, ◌<>◌, ◌≡◌, inl, inr, refl, sym, subst, eq_iff, eq_refl,
  arith,
}
use the_black_hole.Prelude.Results.{ℤ, ok, pos}
use the_black_hole.Cache.{new, get, set, find, remove, enabled, is_positive, fresh_value, expiry}
use the_black_hole.Mcp.Types.{ApiConnection, ApiEndpoint}
use the_black_hole.Gateway.Egress.{validate_egress}
use the_black_hole.Gateway.Render.{full_url}
use the_black_hole.Gateway.Call.{
  Environment, GatewayClient, Params, request_url, cached_response, execute_call,
}
use the_black_hole.Gateway.Call.Caching.{Resolves, execute_call-Answers}

module _ {S A U : Type 0} (env : Environment S A U) where
  execute_call-hit :
      (conn : ApiConnection) (ep : ApiEndpoint) (params : Params) (c : GatewayClient S)
      (url out : String)
      → Resolves env conn ep params url
      → cached_response env url ep c ≡ some out
      → execute_call env conn ep params c ≡ (c, ok out)
  unfolding execute_call
  execute_call-hit conn ep params c url out (u, parsed, good, same) hit =
      rw (parsed, good, same, hit) refl

  -- What a fresh cache gives for what was just put there.
  cached_response-set :
      (ep : ApiEndpoint) (url out : String) (n : ℕ) (s s2 : S) (c : GatewayClient S)
      → ep.method ≡ "GET"
      → 0 < n
      → env.now s2 ≤ env.now s + n
      → c.resp_cache ≡ set (env.now s) (ep.method <> " " <> url) out (some (new (pos n)))
      → cached_response env url ep (record c { outside = s2 }) ≡ some out
  unfolding cached_response new get set enabled is_positive find remove fresh_value expiry
  cached_response-set ep url out n s s2 c is_get lives fresh stored =
      let key = ep.method <> " " <> url in
      let same = eq_refl key in
      let get_too = (eq_iff ep.method "GET").1 is_get in rw stored (ground arith)

  cached_response-new :
      (ep : ApiEndpoint) (url : String) (ttl : ℤ) (c : GatewayClient S)
      → c.resp_cache ≡ some (new ttl)
      → cached_response env url ep c ≡ none
  unfolding cached_response new get find fresh_value
  cached_response-new ep url ttl c empty = rw empty (ground arith)

  -- Which connection asks is of no importance to the cache: right after the cache is switched on, once
  -- a GET request has given an output through one connection, the same call through any connection with
  -- the same base URL gives this output and changes nothing, until its lifetime is over. The
  -- credentials of that connection are not looked up.
  pub execute_call-shared :
      (conn conn' : ApiConnection) (ep : ApiEndpoint) (params : Params) (c : GatewayClient S)
      (n : ℕ) (out : String) (s2 : S)
      → ep.method ≡ "GET"
      → c.resp_cache ≡ some (new (pos n))
      → 0 < n
      → (execute_call env conn ep params c).1 ≡ ok out
      → conn'.base_url ≡ conn.base_url
      → env.now s2 ≤ env.now (execute_call env conn ep params c).0.outside + n
      → let after : GatewayClient S = record (execute_call env conn ep params c).0 {
        outside = s2;
      } in
        execute_call env conn' ep params after ≡ (after, ok out)
  execute_call-shared conn conn' ep params c n out s2 is_get starts lives gives same_url fresh =
      elim (execute_call-Answers env conn ep params c) [
        | inl (e, failing, kept) ↦ cc
        | inr (url, u, inl (v, hit, r)) ↦
            let empty = cached_response-new ep url (pos n) c starts in cc
        | inr (url, u, inr (missed, inl (e, failing, kept))) ↦ cc
        | inr (url, u, inr (missed, inr (out', said, stored, req, of_call, output))) ↦
            let same : out' ≡ out = cc in
            let through : Resolves env conn' ep params url =
              subst
                (λ b.
                  (x : U) × (env.parse_url (full_url env.printer params.for_path b ep.path) ≡ ok x)
                  × (validate_egress env.resolver env.policy (env.scheme x) (env.hostname x)
                      ≡ ok tt)
                  × (request_url env ep params x ≡ url))
                (sym same_url) u in
            let after = (execute_call env conn ep params c).0 in
            let test = (eq_iff ep.method "GET").1 is_get in
            let put : after.resp_cache
                ≡ set (env.now after.outside) (ep.method <> " " <> url) out (some (new (pos n))) =
              ground arith in
            execute_call-hit conn' ep params _ url out through
              (cached_response-set ep url out n after.outside s2 after is_get lives fresh put)
      ]
