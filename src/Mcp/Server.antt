-- ===== src/Mcp/Server.antt =====
-- The request handler: `handleRequest`, `callTool`, and the audit log behind them.
pub mod Checks
pub mod Permits
pub mod Masking
pub mod Audit
use the_black_hole.Prelude.{
  ℕ, ◌+◌, ◌-◌, String, List, [], ◌∷◌, ◌++◌, Option, none, some, Bool, true, false, not, ◌&&◌, ◌===◌,
  ◌<>◌, ltb, if◌then◌else◌, has_prefix, is_set, decimal, join, length, map,
}
use the_black_hole.Prelude.Results.{ℤ, negsuc, Result, ok, err}
use the_black_hole.Json.{Fields, end, field}
use the_black_hole.Redaction.{Redactor, Counts, redact_map, redact_bytes}
use the_black_hole.Mcp.Types.{
  Caller, Services, AuditLogEntry, RpcRequest, RpcResponse, Tool, Outcome, initialized, tools,
  content, failed,
}
use the_black_hole.Mcp.Scopes.{match_scope}
use the_black_hole.Mcp.Tools.{list_tools, find_endpoint, tool_definition_changed}
use the_black_hole.Mcp.Admin.{handle_admin_tool}

-- `Session`: who opened it, the hash of the token that they showed, and the events written to its stream.
pub record Session : Type 0 where
  pub id : String
  pub caller : Caller
  pub token_hash : String
  pub events : List RpcResponse

-- What changes of an `MCPServer`, over the state `S` outside it: the channel of the audit log, first
-- entry first, the calls that run, and the map of sessions.
pub record McpServer (S : Type 0) : Type 0 where
  pub backend : S
  pub audit_ch : List AuditLogEntry
  pub active_queries : ℕ
  pub sessions : List Session

finding_text : String × ℕ → String
unfolding decimal
finding_text (class, n) = class <> "=" <> decimal n

-- `formatFindings`
unfoldable pub format_findings : Counts → String
unfolding finding_text join
format_findings findings = join "," (map finding_text findings)

-- The capacity of the channel of the audit log.
abbrev pub audit_capacity : ℕ
audit_capacity = 1000

-- The message under which `auditWorker` stores an entry.
unfoldable pub audit_message : AuditLogEntry → String
audit_message e =
    if e.redaction === ""
    then e.err_msg
    else if e.err_msg === ""
    then "redacted: " <> e.redaction
    else e.err_msg <> "; redacted: " <> e.redaction

-- The codes of errors: -32601, -32602, -32603 and -32001.
abbrev pub not_found : ℤ
not_found = negsuc 32600

abbrev pub invalid_params : ℤ
invalid_params = negsuc 32601

abbrev pub internal_error : ℤ
internal_error = negsuc 32602

abbrev pub tool_changed : ℤ
tool_changed = negsuc 32000

-- `len(args) > 0`
abbrev pub has_fields : Fields → Bool
has_fields end = false
has_fields (field k v fs) = true

module _ {S : Type 0} (svc : Services S) where
  -- `logAuditAsync`
  unfoldable pub log_audit_async : AuditLogEntry → McpServer S → McpServer S
  log_audit_async e srv =
      if ltb (length srv.audit_ch) audit_capacity
      then record srv { audit_ch = srv.audit_ch ++ (e ∷ []) }
      else srv

  -- Takes the first of the entries that wait out of the channel, and stores it.
  unfoldable pub store_first : List AuditLogEntry → McpServer S → McpServer S
  unfolding audit_message
  store_first [] srv = srv
  store_first (e ∷ es) srv = record srv {
    audit_ch = es;
    backend = svc.log_audit (record e { err_msg = audit_message e }) srv.backend;
  }

  -- One round of `auditWorker`: waits where the channel is empty.
  unfoldable pub audit_worker : McpServer S → McpServer S
  unfolding store_first
  audit_worker srv = store_first srv.audit_ch srv

  -- `callTool`, less its telemetry.
  unfoldable pub call_tool : (name : String) → Fields → S → S × Result String
  unfolding handle_admin_tool find_endpoint
  call_tool name args s =
      if has_prefix name "admin_"
      then handle_admin_tool svc name args s
      else elim (find_endpoint svc name s) [
        | err e ↦ (s, err e)
        | ok none ↦
            (s, err ("tool " <> svc.quote name <> " not found or target connection is disabled"))
        | ok (some (ep, conn)) ↦ svc.execute_call conn ep args s
      ]

  -- The arguments as they are handed on, with what was masked in them.
  unfoldable pub redact_arguments : Fields → Fields × Counts
  unfolding redact_map
  redact_arguments args = elim svc.redactor [
    | none ↦ (args, [])
    | some r ↦ if has_fields args then redact_map r args else (args, [])
  ]

  -- The result as it is handed on, with what was masked in it.
  unfoldable pub redact_result : Result String → Result String × Counts
  unfolding redact_bytes
  redact_result (err e) = (err e, [])
  redact_result (ok result) = elim svc.redactor [
    | none ↦ (ok result, [])
    | some r ↦ let (masked, findings) = redact_bytes r result in (ok masked, findings)
  ]

  -- The entry of a call and its outcome.
  unfoldable pub audit_entry :
      Caller → (name id : String) (duration : ℕ) → Counts → Result String → AuditLogEntry
  unfolding format_findings
  audit_entry caller name id duration findings (ok result) = record {
    id = id;
    identity = caller.identity;
    tool = name;
    status = "success";
    duration = duration;
    err_msg = "";
    redaction = format_findings findings;
  }
  audit_entry caller name id duration findings (err e) = record {
    id = id;
    identity = caller.identity;
    tool = name;
    status = "failure";
    duration = duration;
    err_msg = e;
    redaction = format_findings findings;
  }

  abbrev pub outcome_of : Result String → Outcome
  outcome_of (ok result) = content result
  outcome_of (err e) = failed internal_error e

  -- The part of `handleRequest` behind the checks of a call.
  unfoldable pub execute : Caller → (name : String) → Fields → McpServer S → McpServer S × Outcome
  unfolding call_tool redact_arguments redact_result audit_entry log_audit_async
  execute caller name args srv =
      let (safe_args, found) = redact_arguments args in
      let (s1, called) = call_tool name safe_args srv.backend in
      let (result, found_after) = redact_result called in
      let (s2, log_id) = svc.new_uuid s1 in
      let entry =
        audit_entry caller name log_id (svc.elapsed srv.backend s1) (found ++ found_after) result in
      (
        log_audit_async entry
            (record srv { backend = s2; active_queries = srv.active_queries + 1 - 1 }),
        outcome_of result,
      )

  -- What the check of the pinned definition makes of `toolDefinitionChanged`.
  unfoldable pub pinning_refusal : (name : String) → Result Bool → Option Outcome
  pinning_refusal name (err e) = some (failed internal_error e)
  pinning_refusal name (ok true) = some (
      failed tool_changed (
        "tool "
        <> svc.quote name
        <> " definition has changed since it was approved; refusing call (strict tool pinning enabled)"))
  pinning_refusal name (ok false) = none

  -- Why `handleRequest` refuses a call, where it does: the checks of role, scopes and pinning.
  unfoldable pub refusal : Caller → (name : String) → S → Option Outcome
  unfolding match_scope tool_definition_changed pinning_refusal
  refusal caller name s =
      if has_prefix name "admin_" && not (caller.role === "admin")
      then some
          (failed not_found ("Method " <> name <> " not found (Unauthorized: Admin role required)"))
      else if not (match_scope name caller.scopes)
      then some (
          failed not_found
            ("Method " <> name <> " not found (Unauthorized: Scope matching failed)"))
      else if svc.tool_pinning_strict
      then pinning_refusal name (tool_definition_changed svc name s)
      else none

  -- The case of `tools/call`.
  unfoldable pub handle_call : Caller → (params : String) → McpServer S → McpServer S × Outcome
  unfolding refusal execute
  handle_call caller params srv = elim (svc.unmarshal_call params) [
    | none ↦ (srv, failed invalid_params "Invalid tools/call params")
    | some (name, args) ↦ elim (refusal caller name srv.backend) [
      | some outcome ↦ (srv, outcome)
      | none ↦ execute caller name args srv
    ]
  ]

  abbrev pub listed : Result (List Tool) → Outcome
  listed (ok ts) = tools ts
  listed (err e) = failed internal_error e

  -- The switch of `handleRequest` over the method.
  unfoldable pub dispatch : Caller → RpcRequest → McpServer S → McpServer S × Outcome
  unfolding list_tools handle_call
  dispatch caller req srv =
      if req.method === "initialize"
      then (srv, initialized)
      else if req.method === "tools/list"
      then (srv, listed (list_tools svc caller.role caller.scopes srv.backend))
      else if req.method === "tools/call"
      then handle_call caller req.params srv
      else (srv, failed not_found ("Method " <> req.method <> " not found"))

  -- `handleRequest`
  unfoldable pub handle_request : Caller → RpcRequest → McpServer S → McpServer S × RpcResponse
  unfolding dispatch
  handle_request caller req srv =
      let (srv', outcome) = dispatch caller req srv in
      (srv', record { id = req.id; outcome = outcome })
