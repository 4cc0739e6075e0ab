-- ===== src/Mcp/Server/Permits.antt =====
-- What is known of a call that gave a result.
use the_black_hole.Prelude.{
  String, List, none, some, true, false, ◌===◌, ◌≡◌, ◌≢◌, ◌⊎◌, inl, inr, has_prefix, refl, sym, ap,
  ◌∙◌, subst, Bool-cases, if_cases, eq_iff, arith,
}
use the_black_hole.Prelude.Results.{Result, ok, err}
use the_black_hole.Json.{Fields}
use the_black_hole.ToolIntegrity.{hash, changed}
use the_black_hole.Mcp.Types.{
  ApiConnection, ApiEndpoint, Caller, Services, RpcRequest, Outcome, Tool, content,
}
use the_black_hole.Mcp.Scopes.{match_scope}
use the_black_hole.Mcp.Tools.{find_endpoint, definition_of, tool_definition_changed}
use the_black_hole.Mcp.Server.{
  McpServer, execute, refusal, pinning_refusal, handle_call, handle_request, redact_arguments,
  redact_result, outcome_of, listed,
}
use the_black_hole.Mcp.Server.Checks.{call_tool-cases, handle_call-cases, IsFailed}

module _ {S : Type 0} (svc : Services S) where
  -- The definition of an endpoint is pinned: it is the one that was approved, or none was.
  abbrev pub IsPinned : (name : String) → ApiEndpoint → Type 0
  IsPinned name ep =
      (svc.tool_pinning_strict ≡ false)
      ⊎ (ep.definition_hash ≡ "")
      ⊎ (hash svc.codec (definition_of name ep) ≡ ep.definition_hash)

  -- A caller may call the tool of a name.
  abbrev pub IsPermitted : Caller → (name : String) → S → Type 0
  IsPermitted caller name s =
      (match_scope name caller.scopes ≡ true)
      × (((has_prefix name "admin_" ≡ true) × (caller.role ≡ "admin"))
          ⊎ ((ep : ApiEndpoint) × (conn : ApiConnection) × (find_endpoint svc name s
                ≡ ok (some (ep, conn)))
              × IsPinned name ep))

  refusal-scope :
      (caller : Caller) (name : String) (s : S)
      → refusal svc caller name s ≡ none
      → match_scope name caller.scopes ≡ true
  unfolding refusal
  refusal-scope caller name s h = ground arith

  refusal-role :
      (caller : Caller) (name : String) (s : S)
      → refusal svc caller name s ≡ none
      → has_prefix name "admin_" ≡ true
      → caller.role ≡ "admin"
  unfolding refusal
  refusal-role caller name s h prefixed =
      let test : (caller.role === "admin") ≡ true = ground arith in
      (eq_iff caller.role "admin").0 test

  tool_definition_changed-found :
      (name : String) (s : S) (ep : ApiEndpoint) (conn : ApiConnection)
      → has_prefix name "admin_" ≡ false
      → find_endpoint svc name s ≡ ok (some (ep, conn))
      → tool_definition_changed svc name s
        ≡ ok (changed svc.codec ep.definition_hash (definition_of name ep))
  unfolding tool_definition_changed
  tool_definition_changed-found name s ep conn plain found = rw (plain, found) refl

  refusal-IsPinned :
      (caller : Caller) (name : String) (s : S) (ep : ApiEndpoint)
      → tool_definition_changed svc name s
        ≡ ok (changed svc.codec ep.definition_hash (definition_of name ep))
      → refusal svc caller name s ≡ none
      → IsPinned name ep
  unfolding refusal changed pinning_refusal
  refusal-IsPinned caller name s ep test h = elim (Bool-cases svc.tool_pinning_strict) [
    | inr off ↦ inl off
    | inl on ↦ elim (Bool-cases (ep.definition_hash === "")) [
      | inl y ↦ inr (inl ((eq_iff ep.definition_hash "").0 y))
      | inr n ↦ inr (
          inr
            ((eq_iff (hash svc.codec (definition_of name ep)) ep.definition_hash).0 (ground arith)))
    ]
  ]

  execute-content :
      (caller : Caller) (name : String) (args : Fields) (srv : McpServer S) (result : String)
      → has_prefix name "admin_" ≡ false
      → (execute svc caller name args srv).1 ≡ content result
      → (ep : ApiEndpoint) × (conn : ApiConnection) × (find_endpoint svc name srv.backend
          ≡ ok (some (ep, conn)))
  unfolding execute redact_result
  execute-content caller name args srv result plain h =
      elim (call_tool-cases svc name (redact_arguments svc args).0 srv.backend plain) [
        | inl (e, refused) ↦
            let out =
              ap (λ (r : S × Result String). outcome_of svc (redact_result svc r.1).0) refused in
            cc
        | inr (ep, conn, found, called) ↦ (ep, conn, found)
      ]

  IsFailed-content : (o : Outcome) (result : String) → o ≡ content result → IsFailed (some o) → ⊥
  IsFailed-content o result same bad = subst (λ o. IsFailed (some o)) same bad

  listed-content : (r : Result (List Tool)) (result : String) → listed svc r ≢ content result
  listed-content (ok ts) result h = cc
  listed-content (err e) result h = cc

  -- A request that is answered by the content of a result is a call that ran.
  abbrev pub HasRun : Caller → (params result : String) → McpServer S → Type 0
  HasRun caller params result srv =
      (name : String) × (args : Fields) × (svc.unmarshal_call params ≡ some (name, args))
      × (refusal svc caller name srv.backend ≡ none)
      × ((execute svc caller name args srv).1 ≡ content result)

  handle_call-HasRun :
      (caller : Caller) (params : String) (srv : McpServer S) (result : String)
      → (handle_call svc caller params srv).1 ≡ content result
      → HasRun caller params result srv
  handle_call-HasRun caller params srv result h = elim (handle_call-cases svc caller params srv) [
    | inl (outcome, same, bad) ↦
        elim (IsFailed-content outcome result
          (subst (λ (r : McpServer S × Outcome). r.1 ≡ content result) same h) bad) [ ]
    | inr (name, args, good, passed, same) ↦
        (name, args, good, passed, ap (λ (r : McpServer S × Outcome). r.1) (sym same) ∙ h)
  ]

  pub handle_request-HasRun :
      (caller : Caller) (req : RpcRequest) (srv : McpServer S) (result : String)
      → (handle_request svc caller req srv).1.outcome ≡ content result
      → HasRun caller req.params result srv
  unfolding handle_request
  handle_request-HasRun caller req srv result h =
      let Q : McpServer S × Outcome → Type 0 =
        λ r. r.1 ≡ content result → HasRun caller req.params result srv in
      if_cases Q (req.method === "initialize") _ _ (λ y h. cc)
        (λ n1.
          if_cases Q (req.method === "tools/list") _ _ (λ y h. elim (listed-content _ result h) [ ])
            (λ n2.
              if_cases Q (req.method === "tools/call") _ _
                (λ y h. handle_call-HasRun caller req.params srv result h) (λ n3 h. cc)))
        h

  -- A request that is answered by the content of a result is a call of a tool that the scopes of the caller
  -- allow: by an administrator of a management tool, or by anyone of an endpoint that was found, whose
  -- definition hashes to what was approved, unless pinning is not strict or nothing was approved.
  pub handle_request-content :
      (caller : Caller) (req : RpcRequest) (srv : McpServer S) (result : String)
      → (handle_request svc caller req srv).1.outcome ≡ content result
      → (name : String) × (args : Fields) × (svc.unmarshal_call req.params ≡ some (name, args))
        × IsPermitted caller name srv.backend
  handle_request-content caller req srv result h =
      let (name, args, good, passed, ran) = handle_request-HasRun caller req srv result h in
      let in_scope = refusal-scope caller name srv.backend passed in
      elim (Bool-cases (has_prefix name "admin_")) [
        | inl y ↦
            (name, args, good, (in_scope, inl (y, refusal-role caller name srv.backend passed y)))
        | inr n ↦
            let (ep, conn, found) = execute-content caller name args srv result n ran in
            let test = tool_definition_changed-found name srv.backend ep conn n found in
            let pinned = refusal-IsPinned caller name srv.backend ep test passed in
            (name, args, good, (in_scope, inr (ep, conn, found, pinned)))
      ]
