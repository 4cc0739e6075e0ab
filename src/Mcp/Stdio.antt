-- ===== src/Mcp/Stdio.antt =====
-- pkg/mcp/server.go: `StartStdioMode`, which answers the requests on the standard input.
use the_black_hole.Prelude.{
  String, List, [], ◌∷◌, Option, true, false, ◌≡◌, ◌≢◌, inl, inr, refl, ap, Bool-cases,
  Option-cases, eq_iff, arith,
}
use the_black_hole.Prelude.Results.{Result, ok, err}
use the_black_hole.Json.{Value}
use the_black_hole.Mcp.Types.{Services, Caller, RpcRequest, RpcResponse}
use the_black_hole.Mcp.Auth.{
  MayAdminister, verify_gateway_token, verify_gateway_token_lem, stored_caller, stdio_caller,
}
use the_black_hole.Mcp.Server.{McpServer, handle_request}
use the_black_hole.Mcp.Server.Checks.{CallsKeep, handle_request-not_admin}

distinct : false ≡ true → ⊥
distinct e = cc

module _ {S : Type 0} (svc : Services S) where
  -- The loop over what is decoded from the input, up to its end or to an error.
  unfoldable pub serve_stdio :
      Caller → List (Result RpcRequest) → McpServer S → McpServer S × List RpcResponse
  unfolding handle_request
  serve_stdio caller [] srv = (srv, [])
  serve_stdio caller (err e ∷ inputs) srv = (srv, [])
  serve_stdio caller (ok req ∷ inputs) srv =
      let (srv1, resp) = handle_request svc caller req srv in
      let (srv2, resps) = serve_stdio caller inputs srv1 in (srv2, resp ∷ resps)

  -- `StartStdioMode`, with the text of `MCP_GATEWAY_TOKEN`.
  unfoldable pub start_stdio_mode :
      (token : String) → List (Result RpcRequest) → McpServer S → McpServer S × List RpcResponse
  unfolding serve_stdio stdio_caller
  start_stdio_mode token inputs srv = serve_stdio (stdio_caller svc token srv.backend) inputs srv

  -- The ids of the requests before the first one that cannot be decoded, and of responses.
  abbrev pub asked : List (Result RpcRequest) → List (Option Value)
  asked [] = []
  asked (err e ∷ inputs) = []
  asked (ok req ∷ inputs) = req.id ∷ asked inputs

  abbrev pub answered : List RpcResponse → List (Option Value)
  answered [] = []
  answered (resp ∷ resps) = resp.id ∷ answered resps

  serve_stdio-asked :
      (caller : Caller) (inputs : List (Result RpcRequest)) (srv : McpServer S)
      → answered (serve_stdio caller inputs srv).1 ≡ asked inputs
  unfolding serve_stdio handle_request
  serve_stdio-asked caller [] srv = refl
  serve_stdio-asked caller (err e ∷ inputs) srv = refl
  serve_stdio-asked caller (ok req ∷ inputs) srv =
      ap (λ (ids : List (Option Value)). req.id ∷ ids)
        (serve_stdio-asked caller inputs (handle_request svc caller req srv).0)

  stdio_caller_role :
      (token : String) (s : S)
      → token ≢ ""
      → (MayAdminister svc token s → ⊥)
      → (stdio_caller svc token s).role ≢ "admin"
  unfolding stdio_caller stored_caller
  stdio_caller_role token s set ordinary admin =
      let bare = eq_iff token "" in
      let odd = eq_iff "unauthenticated" "admin" in
      elim (Bool-cases (verify_gateway_token svc token)) [
        | inl y ↦ ordinary (inl (verify_gateway_token_lem svc token y))
        | inr n ↦ elim (Option-cases (svc.get_client_token token s)) [
          | inl missing ↦
              let other = n in
              let none_here = missing in
              let r : ◌≡◌ {A = String} "unauthenticated" "admin" = ground arith in
              distinct (odd.1 r)
          | inr (ct, found) ↦ elim (Bool-cases ct.enabled) [
            | inl on ↦ ordinary (
                inr (
                  ct,
                  found,
                  on,
                  (let other = n in let here = found in let e = on in ground arith),
                ))
            | inr off ↦
                let other = n in
                let here = found in
                let e = off in
                let r : ◌≡◌ {A = String} "unauthenticated" "admin" = ground arith in
                distinct (odd.1 r)
          ]
        ]
      ]

  module _ (P : S → Type 0) (keep : CallsKeep svc P) where
    serve_stdio-keeps :
        (caller : Caller) (inputs : List (Result RpcRequest)) (srv : McpServer S)
        → caller.role ≢ "admin"
        → P srv.backend
        → P (serve_stdio caller inputs srv).0.backend
    unfolding serve_stdio
    serve_stdio-keeps caller [] srv other h = h
    serve_stdio-keeps caller (err e ∷ inputs) srv other h = h
    serve_stdio-keeps caller (ok req ∷ inputs) srv other h =
        serve_stdio-keeps caller inputs (handle_request svc caller req srv).0 other
          (handle_request-not_admin svc P keep caller req srv other h)

    -- Every request on the standard input, up to the first that cannot be decoded, gets one response, in
    -- the same order and with the same id, also a request without an id; and where a token is set that
    -- may not administer the gateway, the run keeps what calls of the APIs and new identifiers keep.
    pub start_stdio_mode-keeps :
        (token : String) (inputs : List (Result RpcRequest)) (srv : McpServer S)
        → token ≢ ""
        → (MayAdminister svc token srv.backend → ⊥)
        → P srv.backend
        → (answered (start_stdio_mode token inputs srv).1 ≡ asked inputs)
          × P (start_stdio_mode token inputs srv).0.backend
    unfolding start_stdio_mode
    start_stdio_mode-keeps token inputs srv set ordinary h =
        let caller = stdio_caller svc token srv.backend in
        (
          serve_stdio-asked caller inputs srv,
          serve_stdio-keeps caller inputs srv (stdio_caller_role token srv.backend set ordinary) h,
        )
