-- ===== src/Mcp/Server/Audit.antt =====
-- The audit log: each call that runs leaves one entry, and no other request does.
use the_black_hole.Prelude.{
  ℕ, ◌<◌, String, [], ◌∷◌, ◌++◌, none, some, ◌===◌, ◌≡◌, ◌⊎◌, inl, inr, length, refl, sym, subst,
  if_cases, arith,
}
use the_black_hole.Prelude.Results.{Result, ok, err}
use the_black_hole.Json.{Fields}
use the_black_hole.Redaction.{Counts}
use the_black_hole.Mcp.Types.{AuditLogEntry, Caller, Services, RpcRequest, Outcome, failed, content}
use the_black_hole.Mcp.Server.{
  McpServer, execute, refusal, handle_request, log_audit_async, audit_capacity, audit_entry,
  outcome_of, internal_error,
}
use the_black_hole.Mcp.Server.Checks.{handle_call-cases}

-- An entry tells who called what, and how it ended.
abbrev pub Tells : Caller → (name : String) → Outcome → AuditLogEntry → Type 0
Tells caller name outcome e =
    (e.identity ≡ caller.identity)
    × (e.tool ≡ name)
    × (((e.status ≡ "success") × (result : String) × (outcome ≡ content result))
        ⊎ ((e.status ≡ "failure") × (outcome ≡ failed internal_error e.err_msg)))

module _ {S : Type 0} (svc : Services S) where
  audit_entry-Tells :
      (caller : Caller) (name id : String) (duration : ℕ) (findings : Counts) (r : Result String)
      → Tells caller name (outcome_of svc r) (audit_entry svc caller name id duration findings r)
  unfolding audit_entry
  audit_entry-Tells caller name id duration findings (ok result) =
      (refl, refl, inl (refl, result, refl))
  audit_entry-Tells caller name id duration findings (err e) = (refl, refl, inr (refl, refl))

  -- Where the channel has room, a request adds one entry behind those that wait.
  abbrev pub IsLogged : Caller → (name : String) → McpServer S → McpServer S × Outcome → Type 0
  IsLogged caller name srv r =
      (e : AuditLogEntry) × (r.0.audit_ch ≡ srv.audit_ch ++ (e ∷ [])) × Tells caller name r.1 e

  log_audit_async-room :
      (e : AuditLogEntry) (srv : McpServer S)
      → length srv.audit_ch < audit_capacity
      → (log_audit_async svc e srv).audit_ch ≡ srv.audit_ch ++ (e ∷ [])
  unfolding log_audit_async
  log_audit_async-room e srv room = ground arith

  execute-IsLogged :
      (caller : Caller) (name : String) (args : Fields) (srv : McpServer S)
      → length srv.audit_ch < audit_capacity
      → IsLogged caller name srv (execute svc caller name args srv)
  unfolding execute
  execute-IsLogged caller name args srv room =
      (_, log_audit_async-room _ _ room, audit_entry-Tells caller name _ _ _ _)

  -- Where the channel of the audit log has room, a request changes nothing at all, or it is a call that
  -- passed every check, and then exactly one entry is added, of the caller and the tool, that is a success
  -- where the response is a result and a failure with the message of the error where it is one.
  pub handle_request-IsLogged :
      (caller : Caller) (req : RpcRequest) (srv : McpServer S)
      → length srv.audit_ch < audit_capacity
      → ((handle_request svc caller req srv).0 ≡ srv)
        ⊎ ((name : String) × (args : Fields) × (svc.unmarshal_call req.params ≡ some (name, args))
            × (refusal svc caller name srv.backend ≡ none)
            × IsLogged caller name srv (
              (handle_request svc caller req srv).0,
              (handle_request svc caller req srv).1.outcome,
            ))
  unfolding handle_request
  handle_request-IsLogged caller req srv room =
      let Q : McpServer S × Outcome → Type 0 = λ r.
        (r.0 ≡ srv)
        ⊎ ((name : String) × (args : Fields) × (svc.unmarshal_call req.params ≡ some (name, args))
            × (refusal svc caller name srv.backend ≡ none)
            × IsLogged caller name srv r) in
      if_cases Q (req.method === "initialize") _ _ (λ y. inl refl)
        (λ n1.
          if_cases Q (req.method === "tools/list") _ _ (λ y. inl refl)
            (λ n2.
              if_cases Q (req.method === "tools/call") _ _
                (λ y. elim (handle_call-cases svc caller req.params srv) [
                  | inl (outcome, same, bad) ↦ subst Q (sym same) (inl refl)
                  | inr (name, args, good, passed, same) ↦
                      subst Q (sym same)
                        (inr (name, args, good, passed, execute-IsLogged caller name args srv room))
                ])
                (λ n3. inl refl)))
