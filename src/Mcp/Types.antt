-- ===== src/Mcp/Types.antt =====
-- The data of the MCP server, and what it takes from other packages.
use the_black_hole.Prelude.{ℕ, String, List, Option, Bool}
use the_black_hole.Prelude.Results.{ℤ, Result}
use the_black_hole.Json.{Value, Fields}
use the_black_hole.Redaction.{Redactor}
use the_black_hole.ToolIntegrity.{Codec}

-- `storage.APIConnection`
pub record ApiConnection : Type 0 where
  pub id : String
  pub name : String
  pub description : String
  pub base_url : String
  pub auth_type : String
  pub auth_secret_ref : String
  pub enabled : Bool
  pub tool_prefix : String

-- `storage.APIEndpoint`; the version counts changes.
pub record ApiEndpoint : Type 0 where
  pub id : String
  pub connection_id : String
  pub tool_name : String
  pub tool_description : String
  pub path : String
  pub method : String
  pub parameters_schema : String
  pub template : String
  pub definition_hash : String
  pub version : ℕ

-- `storage.ClientToken`, less the token itself
pub record StoredToken : Type 0 where
  pub client_name : String
  pub client_role : String
  pub scopes : String
  pub enabled : Bool

-- What `resolveAuth` reads of the claims of an OAuth token.
pub record OauthClaims : Type 0 where
  pub subject : String
  pub scopes : List String

-- Who calls: identity, role and scopes.
pub record Caller : Type 0 where
  pub identity : String
  pub role : String
  pub scopes : List String

-- `Tool`; a missing `Meta` is `nil`.
pub record Tool : Type 0 where
  pub name : String
  pub description : String
  pub input_schema : Value
  pub meta : Option Fields

-- `JSONRPCRequest`; a missing id is `nil`.
pub record RpcRequest : Type 0 where
  pub method : String
  pub params : String
  pub id : Option Value

-- The result or the error of a `JSONRPCResponse`.
pub data Outcome : Type 0 where
  initialized : Outcome
  tools : List Tool → Outcome
  content : String → Outcome
  failed : (code : ℤ) (message : String) → Outcome

-- `JSONRPCResponse`
pub record RpcResponse : Type 0 where
  pub id : Option Value
  pub outcome : Outcome

-- `auditLogEntry`
pub record AuditLogEntry : Type 0 where
  pub id : String
  pub identity : String
  pub tool : String
  pub status : String
  pub duration : ℕ
  pub err_msg : String
  pub redaction : String

-- The configuration of a server and the code that it calls, over a state `S` of everything outside: the
-- store, the vault, the APIs behind the gateway, and the source of identifiers. A lookup of a token that
-- fails and one that finds nothing are one; `oauth` is `none` where OAuth is not enabled.
pub record Services (S : Type 0) : Type 0 where
  pub gateway_token : String
  pub digest : String → String
  pub get_client_token : String → S → Option StoredToken
  pub oauth : Option (String → S → Option OauthClaims)
  pub get_all_endpoints : S → Result (List ApiEndpoint)
  pub get_connections : S → Result (List ApiConnection)
  pub save_connection : ApiConnection → S → S × Result (Unit {0})
  pub save_endpoint : ApiEndpoint → S → S × Result (Unit {0})
  pub set_secret : (key value : String) → S → S × Result (Unit {0})
  pub log_audit : AuditLogEntry → S → S
  pub execute_call : ApiConnection → ApiEndpoint → Fields → S → S × Result String
  pub new_uuid : S → S × String
  pub elapsed : (before after : S) → ℕ
  pub unmarshal_call : String → Option (String × Fields)
  pub quote : String → String
  pub equal_fold : String → String → Bool
  pub codec : Codec
  pub redactor : Option Redactor
  pub tool_pinning_strict : Bool
  pub cors_origins : List String
  pub max_sessions : ℕ
