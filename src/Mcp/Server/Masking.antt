-- ===== src/Mcp/Server/Masking.antt =====
-- The redaction around a call: of the arguments before it, and of the result behind it.
use the_black_hole.Prelude.{String, some, ◌≡◌, refl, sym, ap, ◌∙◌}
use the_black_hole.Prelude.Results.{Result, ok, err}
use the_black_hole.Json.{Fields, end, field}
use the_black_hole.Redaction.{Redactor, redact_map, redact_bytes}
use the_black_hole.Mcp.Types.{Caller, Services, RpcRequest, content}
use the_black_hole.Mcp.Server.{
  McpServer, call_tool, execute, handle_request, redact_arguments, redact_result, outcome_of,
}
use the_black_hole.Mcp.Server.Permits.{handle_request-HasRun}

module _ {S : Type 0} (svc : Services S) (r : Redactor) (on : svc.redactor ≡ some r) where
  redact_arguments-redact_map :
      (args : Fields) → (redact_arguments svc args).0 ≡ (redact_map r args).0
  unfolding redact_arguments redact_map
  redact_arguments-redact_map end = rw on refl
  redact_arguments-redact_map (field key v fs) = rw on refl

  redact_result-redact_bytes :
      (called : Result String) (result : String)
      → outcome_of svc (redact_result svc called).0 ≡ content result
      → (raw : String) × (called ≡ ok raw) × (result ≡ (redact_bytes r raw).0)
  unfolding redact_result
  redact_result-redact_bytes (err e) result h = cc
  redact_result-redact_bytes (ok raw) result h =
      let kept : (redact_result svc (ok raw)).0 ≡ ok (redact_bytes r raw).0 = rw on refl in
      let e : content (redact_bytes r raw).0 ≡ content result =
        ap (outcome_of svc) (sym kept) ∙ h in
      (raw, refl, cc)

  -- Where the redaction is enabled and a request is answered by the content of a result, a tool was called
  -- with the arguments as they are masked, and the content is what the tool gave, masked.
  pub handle_request-masked :
      (caller : Caller) (req : RpcRequest) (srv : McpServer S) (result : String)
      → (handle_request svc caller req srv).1.outcome ≡ content result
      → (name : String) × (args : Fields) × (raw : String) × (svc.unmarshal_call req.params
          ≡ some (name, args))
        × ((call_tool svc name (redact_map r args).0 srv.backend).1 ≡ ok raw)
        × (result ≡ (redact_bytes r raw).0)
  unfolding execute
  handle_request-masked caller req srv result h =
      let (name, args, good, passed, ran) = handle_request-HasRun svc caller req srv result h in
      let (raw, called, masked) =
        redact_result-redact_bytes (call_tool svc name (redact_arguments svc args).0 srv.backend).1
          result ran in
      let same =
        ap (λ a. (call_tool svc name a srv.backend).1) (redact_arguments-redact_map args) in
      (name, args, raw, good, sym same ∙ called, masked)
