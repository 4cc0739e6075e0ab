-- ===== src/Mcp/Transport.antt =====
-- The transports over HTTP: `ServeStreamable`, `ServeSSE`, `ServeMessages`.
pub mod Bounds
pub mod Ordinary
use the_black_hole.Prelude.{
  ℕ, String, List, [], ◌∷◌, ◌++◌, Option, none, some, Bool, true, false, not, ◌===◌, ltb,
  if◌then◌else◌, on_option, is_set, length, keep_if,
}
use the_black_hole.Mcp.Types.{Caller, Services, RpcRequest, RpcResponse}
use the_black_hole.Mcp.Auth.{resolve_auth, extract_token, allowed_origin}
use the_black_hole.Mcp.Server.{Session, McpServer, handle_request, audit_worker}

-- What the handlers read of an `http.Request`: its method, the headers `Authorization` and `Origin`, the
-- parameters `token` and `sessionId`, and the body, where it decodes.
pub record HttpRequest : Type 0 where
  pub method : String
  pub authorization : String
  pub origin : String
  pub token_param : String
  pub session_param : String
  pub body : Option RpcRequest

-- What they write: the status, the header `Access-Control-Allow-Origin`, the id of a session, in the
-- header `Mcp-Session-Id` or in the first event of a stream, an empty text for what is not written,
-- whether a 401 has the challenge of OAuth, and the body where it is JSON.
pub record HttpReply : Type 0 where
  pub status : ℕ
  pub allow_origin : String
  pub session_id : String
  pub challenge : Bool
  pub body : Option RpcResponse

-- `http.Error` and `w.WriteHeader`
abbrev pub reply : (status : ℕ) (origin : String) → HttpReply
reply status origin = record {
  status = status;
  allow_origin = origin;
  session_id = "";
  challenge = false;
  body = none;
}

module _ {S : Type 0} (svc : Services S) where
  -- `writeUnauthorized`
  unfoldable pub unauthorized : (origin : String) → HttpReply
  unauthorized origin = record (reply 401 origin) {
    challenge = elim svc.oauth [ none ↦ false | some validate_token ↦ true ];
  }

  -- The end of `ServeStreamable`: a session id is made up for `initialize`.
  unfoldable pub finish :
      (origin : String) → RpcRequest → McpServer S × RpcResponse → McpServer S × HttpReply
  finish origin req (srv, resp) =
      let (s, id) = svc.new_uuid srv.backend in
      let answer : HttpReply = record (reply 200 origin) { body = some resp } in
      if req.method === "initialize"
      then (record srv { backend = s }, record answer { session_id = id })
      else (srv, answer)

  -- `ServeStreamable`
  unfoldable pub serve_streamable : HttpRequest → McpServer S → McpServer S × HttpReply
  unfolding unauthorized finish handle_request resolve_auth extract_token allowed_origin
  serve_streamable r srv =
      let origin = allowed_origin svc r.origin in
      on_option (resolve_auth svc (extract_token r.authorization r.token_param) srv.backend)
        (srv, unauthorized origin)
        (λ caller.
          on_option r.body (srv, reply 400 origin)
            (λ req.
              on_option req.id (srv, reply 202 origin)
                (λ id. finish origin req (handle_request svc caller req srv))))

  -- `s.sessions[id] = session`, and `delete(s.sessions, id)`.
  unfoldable pub remove_session : String → List Session → List Session
  remove_session id ss = keep_if (λ s. not (s.id === id)) ss

  -- `s.sessions[id]`
  unfoldable pub find_session : String → List Session → Option Session
  find_session id [] = none
  find_session id (s ∷ ss) = if s.id === id then some s else find_session id ss

  -- `ServeSSE` for a caller that it has accepted, up to its loop, over a writer that can stream. The first
  -- event, which names the session, is no response.
  unfoldable pub accept_session :
      (origin token : String) → Caller → S × String → McpServer S → McpServer S × HttpReply
  unfolding remove_session
  accept_session origin token caller (s, id) srv =
      if ltb (length srv.sessions) svc.max_sessions
      then (
        record srv {
          backend = s;
          sessions =
              record { id = id; caller = caller; token_hash = svc.digest token; events = [] }
              ∷ remove_session id srv.sessions;
        },
        record (reply 200 origin) { session_id = id },
      )
      else (record srv { backend = s }, reply 429 origin)

  -- `ServeSSE` up to its loop
  unfoldable pub open_session : HttpRequest → McpServer S → McpServer S × HttpReply
  unfolding unauthorized resolve_auth extract_token allowed_origin accept_session
  open_session r srv =
      let token = extract_token r.authorization r.token_param in
      on_option (resolve_auth svc token srv.backend) (srv, unauthorized "")
        (λ caller.
          accept_session (allowed_origin svc r.origin) token caller (svc.new_uuid srv.backend) srv)

  -- The end of `ServeSSE`, when the client is gone.
  unfoldable pub close_session : (id : String) → McpServer S → McpServer S
  unfolding remove_session
  close_session id srv = record srv { sessions = remove_session id srv.sessions }

  -- `writeEvent` of a response, on the stream of a session.
  unfoldable pub write_event : (id : String) → RpcResponse → List Session → List Session
  write_event id resp [] = []
  write_event id resp (s ∷ ss) =
      let rest = write_event id resp ss in
      if s.id === id then record s { events = s.events ++ (resp ∷ []) } ∷ ss else s ∷ rest

  -- A message that is let in: the response goes to the stream and into the body.
  unfoldable pub deliver : Session → RpcRequest → McpServer S → McpServer S × HttpReply
  unfolding handle_request write_event
  deliver session req srv =
      let (srv', resp) = handle_request svc session.caller req srv in
      (
        record srv' { sessions = write_event session.id resp srv'.sessions },
        record (reply 200 "") { body = some resp },
      )

  -- `ServeMessages`; a response can always be encoded.
  unfoldable pub serve_messages : HttpRequest → McpServer S → McpServer S × HttpReply
  unfolding deliver find_session extract_token
  serve_messages r srv =
      if not (r.method === "POST")
      then (srv, reply 405 "")
      else on_option (find_session r.session_param srv.sessions) (srv, reply 400 "")
          (λ session.
            if not (svc.digest (extract_token r.authorization r.token_param) === session.token_hash)
            then (srv, reply 401 "")
            else on_option r.body (srv, reply 400 "")
                (λ req. on_option req.id (srv, reply 202 "") (λ id. deliver session req srv)))

  -- The sessions and the channel of a server when `NewMCPServer` has made it.
  abbrev pub new_server : S → McpServer S
  new_server s = record { backend = s; audit_ch = []; active_queries = 0; sessions = [] }

-- What happens to a server: a request of one of the transports, the end of a stream, or a round of
-- `auditWorker`.
pub data Event : Type 0 where
  streamable : HttpRequest → Event
  sse : HttpRequest → Event
  closed : (id : String) → Event
  message : HttpRequest → Event
  worker : Event

module _ {S : Type 0} (svc : Services S) where
  unfoldable pub apply_event : Event → McpServer S → McpServer S
  unfolding serve_streamable open_session close_session serve_messages audit_worker
  apply_event (streamable r) srv = (serve_streamable svc r srv).0
  apply_event (sse r) srv = (open_session svc r srv).0
  apply_event (closed id) srv = close_session svc id srv
  apply_event (message r) srv = (serve_messages svc r srv).0
  apply_event worker srv = audit_worker svc srv

  -- A run, its last event first.
  unfoldable pub run_events : List Event → McpServer S → McpServer S
  unfolding apply_event
  run_events [] srv = srv
  run_events (e ∷ es) srv = apply_event e (run_events es srv)
