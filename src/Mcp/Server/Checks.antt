-- ===== src/Mcp/Server/Checks.antt =====
-- What the checks of `handleRequest` keep out.
use the_black_hole.Prelude.{
  String, Option, none, some, Bool, true, false, not, ◌&&◌, ◌===◌, ◌<>◌, ◌≡◌, ◌≢◌, ◌⊎◌, inl, inr,
  has_prefix, refl, sym, ap, ◌∙◌, subst, Bool-cases, if_cases, Option-cases, eq_iff, arith,
}
use the_black_hole.Prelude.Results.{Result, ok, err, Result-cases}
use the_black_hole.Json.{Fields}
use the_black_hole.Mcp.Types.{
  ApiConnection, ApiEndpoint, Caller, Services, AuditLogEntry, RpcRequest, Outcome, failed,
}
use the_black_hole.Mcp.Scopes.{match_scope}
use the_black_hole.Mcp.Tools.{find_endpoint, tool_definition_changed}
use the_black_hole.Mcp.Server.{
  McpServer, log_audit_async, call_tool, execute, refusal, pinning_refusal, handle_call,
  handle_request, redact_arguments, invalid_params,
}

-- A refusal, where there is one, is an error.
abbrev pub IsFailed : Option Outcome → Type 0
IsFailed none = Unit
IsFailed (some (failed code message)) = Unit
IsFailed (some _) = ⊥

module _ {S : Type 0} (svc : Services S) where
  -- Calls of the APIs behind the gateway and new identifiers keep a property of what is outside.
  abbrev pub CallsKeep : (S → Type 0) → Type 0
  CallsKeep P =
      ((conn : ApiConnection) (ep : ApiEndpoint) (args : Fields) (s : S)
        → P s
        → P (svc.execute_call conn ep args s).0)
      × ((s : S) → P s → P (svc.new_uuid s).0)

  -- A call of a name that no management tool has: of the first endpoint of this name, or of none.
  pub call_tool-cases :
      (name : String) (args : Fields) (s : S)
      → has_prefix name "admin_" ≡ false
      → ((e : String) × (call_tool svc name args s ≡ (s, err e)))
        ⊎ ((ep : ApiEndpoint) × (conn : ApiConnection) × (find_endpoint svc name s
              ≡ ok (some (ep, conn)))
            × (call_tool svc name args s ≡ svc.execute_call conn ep args s))
  unfolding call_tool
  call_tool-cases name args s plain = elim (Result-cases (find_endpoint svc name s)) [
    | inl (e, bad) ↦ inl (e, rw (plain, bad) refl)
    | inr (o, found) ↦ elim (Option-cases o) [
      | inl missing ↦ inl (
        "tool " <> svc.quote name <> " not found or target connection is disabled",
        rw (plain, found, missing) refl,
      )
      | inr ((ep, conn), it) ↦ inr (ep, conn, found ∙ ap ok it, rw (plain, found, it) refl)
    ]
  ]

  pinning_refusal-IsFailed :
      (name : String) (r : Result Bool) → IsFailed (pinning_refusal svc name r)
  unfolding pinning_refusal
  pinning_refusal-IsFailed name (err e) = tt
  pinning_refusal-IsFailed name (ok true) = tt
  pinning_refusal-IsFailed name (ok false) = tt

  refusal-IsFailed :
      (caller : Caller) (name : String) (s : S) → IsFailed (refusal svc caller name s)
  unfolding refusal
  refusal-IsFailed caller name s =
      if_cases IsFailed (has_prefix name "admin_" && not (caller.role === "admin")) _ _ (λ y. tt)
        (λ n1.
          if_cases IsFailed (not (match_scope name caller.scopes)) _ _ (λ y. tt)
            (λ n2.
              if_cases IsFailed svc.tool_pinning_strict _ none
                (λ y. pinning_refusal-IsFailed name (tool_definition_changed svc name s))
                (λ n3. tt)))

  -- A call is refused, or runs behind all checks.
  pub handle_call-cases :
      (caller : Caller) (params : String) (srv : McpServer S)
      → ((outcome : Outcome) × (handle_call svc caller params srv ≡ (srv, outcome))
          × IsFailed (some outcome))
        ⊎ ((name : String) × (args : Fields) × (svc.unmarshal_call params ≡ some (name, args))
            × (refusal svc caller name srv.backend ≡ none)
            × (handle_call svc caller params srv ≡ execute svc caller name args srv))
  unfolding handle_call
  handle_call-cases caller params srv = elim (Option-cases (svc.unmarshal_call params)) [
    | inl bad ↦ inl (failed invalid_params "Invalid tools/call params", ground arith, tt)
    | inr ((name, args), good) ↦ elim (Option-cases (refusal svc caller name srv.backend)) [
      | inl passed ↦ inr (name, args, good, passed, ground arith)
      | inr (outcome, refused) ↦
          inl (
            outcome,
            ground arith,
            subst IsFailed refused (refusal-IsFailed caller name srv.backend),
          )
    ]
  ]

  -- What the execution of a call that passed the checks keeps, a request keeps.
  pub handle_request-keeps {ℓ} :
      (Q : McpServer S → Type ℓ) (caller : Caller) (req : RpcRequest) (srv : McpServer S)
      → ((name : String) (args : Fields)
          → refusal svc caller name srv.backend ≡ none
          → Q (execute svc caller name args srv).0)
      → Q srv
      → Q (handle_request svc caller req srv).0
  unfolding handle_request
  handle_request-keeps Q caller req srv ran h =
      let R = λ (r : McpServer S × Outcome). Q r.0 in
      if_cases R (req.method === "initialize") _ _ (λ y. h)
        (λ n1.
          if_cases R (req.method === "tools/list") _ _ (λ y. h)
            (λ n2.
              if_cases R (req.method === "tools/call") _ _
                (λ y. elim (handle_call-cases caller req.params srv) [
                  | inl (outcome, same, bad) ↦ subst R (sym same) h
                  | inr (name, args, good, passed, same) ↦ subst R (sym same) (ran name args passed)
                ])
                (λ n3. h)))

  module _ (P : S → Type 0) (keep : CallsKeep P) where
    call_tool-not_admin :
        (name : String) (args : Fields) (s : S)
        → has_prefix name "admin_" ≡ false
        → P s
        → P (call_tool svc name args s).0
    unfolding call_tool
    call_tool-not_admin name args s plain h = elim (call_tool-cases name args s plain) [
      | inl (e, refused) ↦ subst (λ (r : S × Result String). P r.0) (sym refused) h
      | inr (ep, conn, found, called) ↦
          subst (λ (r : S × Result String). P r.0) (sym called) (keep.0 conn ep args s h)
    ]

    log_audit_async-backend :
        (e : AuditLogEntry) (srv : McpServer S)
        → P srv.backend
        → P (log_audit_async svc e srv).backend
    unfolding log_audit_async
    log_audit_async-backend e srv h =
        if_cases (λ (srv' : McpServer S). P srv'.backend) _ _ srv (λ y. h) (λ n. h)

    execute-not_admin :
        (caller : Caller) (name : String) (args : Fields) (srv : McpServer S)
        → has_prefix name "admin_" ≡ false
        → P srv.backend
        → P (execute svc caller name args srv).0.backend
    unfolding execute
    execute-not_admin caller name args srv plain h =
        log_audit_async-backend _ _
          (keep.1 _ (call_tool-not_admin name (redact_arguments svc args).0 srv.backend plain h))

    refusal-admin :
        (caller : Caller) (name : String) (s : S)
        → caller.role ≢ "admin"
        → refusal svc caller name s ≡ none
        → has_prefix name "admin_" ≡ false
    unfolding refusal
    refusal-admin caller name s other h = elim (Bool-cases (has_prefix name "admin_")) [
      | inl y ↦ elim (Bool-cases (caller.role === "admin")) [
        | inl admin ↦ elim (other ((eq_iff caller.role "admin").0 admin)) [ ]
        | inr n ↦ ground arith
      ]
      | inr n ↦ n
    ]

    -- What the APIs behind the gateway and new identifiers keep, a request of a caller who is no
    -- administrator keeps.
    pub handle_request-not_admin :
        (caller : Caller) (req : RpcRequest) (srv : McpServer S)
        → caller.role ≢ "admin"
        → P srv.backend
        → P (handle_request svc caller req srv).0.backend
    handle_request-not_admin caller req srv other h =
        handle_request-keeps (λ (r : McpServer S). P r.backend) caller req srv
          (λ name args passed.
            execute-not_admin caller name args srv
              (refusal-admin caller name srv.backend other passed) h)
          h
