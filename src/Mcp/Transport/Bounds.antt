-- ===== src/Mcp/Transport/Bounds.antt =====
-- The bounds on the sessions and on the channel of the audit log hold at all times.
use the_black_hole.Prelude.{
  suc, ◌≤◌, ◌<◌, String, List, [], ◌∷◌, not, ◌===◌, ltb, length, length-append, length-keep_if-le,
  ◌≡◌, refl, sym, subst, if_cases, on_option_cases, arith,
}
use the_black_hole.Json.{Fields}
use the_black_hole.Mcp.Types.{Caller, Services, AuditLogEntry, RpcRequest, RpcResponse}
use the_black_hole.Mcp.Server.{
  Session, McpServer, execute, handle_request, log_audit_async, store_first, audit_capacity,
}
use the_black_hole.Mcp.Server.Checks.{handle_request-keeps}
use the_black_hole.Mcp.Transport.{
  HttpRequest, HttpReply, Event, streamable, sse, closed, message, worker, new_server, apply_event,
  run_events, finish, write_event, remove_session, accept_session, find_session, deliver,
  serve_streamable, serve_messages, open_session, close_session,
}
use the_black_hole.Mcp.Auth.{resolve_auth, extract_token}

module _ {S : Type 0} (svc : Services S) where
  -- There are at most as many sessions as the configuration allows, and entries as the channel holds.
  abbrev pub IsBounded : McpServer S → Type 0
  IsBounded srv = (length srv.sessions ≤ svc.max_sessions) × (length srv.audit_ch ≤ audit_capacity)

  log_audit_async-IsBounded :
      (e : AuditLogEntry) (srv : McpServer S)
      → IsBounded srv
      → IsBounded (log_audit_async svc e srv)
  unfolding log_audit_async
  log_audit_async-IsBounded e srv b =
      if_cases IsBounded (ltb (length srv.audit_ch) audit_capacity) _ srv
        (λ y. let grown = length-append srv.audit_ch (e ∷ []) in (b.0, ground arith)) (λ n. b)

  execute-IsBounded :
      (caller : Caller) (name : String) (args : Fields) (srv : McpServer S)
      → IsBounded srv
      → IsBounded (execute svc caller name args srv).0
  unfolding execute
  execute-IsBounded caller name args srv b = log_audit_async-IsBounded _ _ b

  handle_request-IsBounded :
      (caller : Caller) (req : RpcRequest) (srv : McpServer S)
      → IsBounded srv
      → IsBounded (handle_request svc caller req srv).0
  handle_request-IsBounded caller req srv b =
      handle_request-keeps svc IsBounded caller req srv
        (λ name args passed. execute-IsBounded caller name args srv b) b

  finish-IsBounded :
      (origin : String) (req : RpcRequest) (r : McpServer S × RpcResponse)
      → IsBounded r.0
      → IsBounded (finish svc origin req r).0
  unfolding finish
  finish-IsBounded origin req (srv, resp) b =
      if_cases (λ (r : McpServer S × HttpReply). IsBounded r.0) (req.method === "initialize") _ _
        (λ y. b) (λ n. b)

  serve_streamable-IsBounded :
      (r : HttpRequest) (srv : McpServer S)
      → IsBounded srv
      → IsBounded (serve_streamable svc r srv).0
  unfolding serve_streamable
  serve_streamable-IsBounded r srv b =
      let Q : McpServer S × HttpReply → Type 0 = λ r. IsBounded r.0 in
      on_option_cases Q (resolve_auth svc (extract_token r.authorization r.token_param) srv.backend)
        _ _ (λ n. b)
        (λ caller y.
          on_option_cases Q r.body _ _ (λ n. b)
            (λ req y2.
              on_option_cases Q req.id _ _ (λ n. b)
                (λ id y3. finish-IsBounded _ req _ (handle_request-IsBounded caller req srv b))))

  length-write_event :
      (id : String) (resp : RpcResponse) (ss : List Session)
      → length (write_event svc id resp ss) ≡ length ss
  unfolding write_event
  length-write_event id resp [] = refl
  length-write_event id resp (s ∷ ss) = let rest = length-write_event id resp ss in ground arith

  deliver-IsBounded :
      (session : Session) (req : RpcRequest) (srv : McpServer S)
      → IsBounded srv
      → IsBounded (deliver svc session req srv).0
  unfolding deliver
  deliver-IsBounded session req srv b =
      let kept = handle_request-IsBounded session.caller req srv b in
      let same =
        length-write_event session.id (handle_request svc session.caller req srv).1
          (handle_request svc session.caller req srv).0.sessions in
      (subst (λ n. n ≤ svc.max_sessions) (sym same) kept.0, kept.1)

  serve_messages-IsBounded :
      (r : HttpRequest) (srv : McpServer S) → IsBounded srv → IsBounded (serve_messages svc r srv).0
  unfolding serve_messages
  serve_messages-IsBounded r srv b =
      let Q : McpServer S × HttpReply → Type 0 = λ r. IsBounded r.0 in
      if_cases Q (not (r.method === "POST")) _ _ (λ y. b)
        (λ n.
          on_option_cases Q (find_session svc r.session_param srv.sessions) _ _ (λ n. b)
            (λ session y.
              if_cases Q
                (not
                  (svc.digest (extract_token r.authorization r.token_param) === session.token_hash))
                _ _ (λ y. b)
                (λ n.
                  on_option_cases Q r.body _ _ (λ n. b)
                    (λ req y.
                      on_option_cases Q req.id _ _ (λ n. b)
                        (λ id y. deliver-IsBounded session req srv b)))))

  length-remove_session :
      (id : String) (ss : List Session)
      → length ss < svc.max_sessions
      → suc (length (remove_session svc id ss)) ≤ svc.max_sessions
  unfolding remove_session
  length-remove_session id ss room =
      let fewer = length-keep_if-le (λ (s : Session). not (s.id === id)) ss in
      omega (arith, room, fewer)

  open_session-IsBounded :
      (r : HttpRequest) (srv : McpServer S) → IsBounded srv → IsBounded (open_session svc r srv).0
  unfolding open_session accept_session
  open_session-IsBounded r srv b =
      let Q : McpServer S × HttpReply → Type 0 = λ r. IsBounded r.0 in
      on_option_cases Q (resolve_auth svc (extract_token r.authorization r.token_param) srv.backend)
        _ _ (λ n. b)
        (λ caller y.
          if_cases Q (ltb (length srv.sessions) svc.max_sessions) _ _
            (λ room.
              (length-remove_session (svc.new_uuid srv.backend).1 srv.sessions (ground arith), b.1))
            (λ n. b))

  close_session-IsBounded :
      (id : String) (srv : McpServer S) → IsBounded srv → IsBounded (close_session svc id srv)
  unfolding close_session remove_session
  close_session-IsBounded id srv b =
      let fewer = length-keep_if-le (λ (s : Session). not (s.id === id)) srv.sessions in
      (omega (arith, b.0, fewer), b.1)

  store_first-IsBounded :
      (es : List AuditLogEntry) (srv : McpServer S)
      → length es ≤ audit_capacity
      → IsBounded srv
      → IsBounded (store_first svc es srv)
  unfolding store_first
  store_first-IsBounded [] srv h b = b
  store_first-IsBounded (e ∷ es) srv h b = (b.0, omega (arith, h))

  apply_event-IsBounded :
      (e : Event) (srv : McpServer S) → IsBounded srv → IsBounded (apply_event svc e srv)
  unfolding apply_event
  apply_event-IsBounded (streamable r) srv b = serve_streamable-IsBounded r srv b
  apply_event-IsBounded (sse r) srv b = open_session-IsBounded r srv b
  apply_event-IsBounded (closed id) srv b = close_session-IsBounded id srv b
  apply_event-IsBounded (message r) srv b = serve_messages-IsBounded r srv b
  apply_event-IsBounded worker srv b = store_first-IsBounded srv.audit_ch srv b.1 b

  -- After any run from a new server, there are at most as many sessions as `maxSessions` says, and at most
  -- 1000 entries of the audit log wait.
  pub run_events-IsBounded :
      (es : List Event) (s : S) → IsBounded (run_events svc es (new_server svc s))
  unfolding run_events
  run_events-IsBounded [] s = (omega arith, omega arith)
  run_events-IsBounded (e ∷ es) s = apply_event-IsBounded e _ (run_events-IsBounded es s)
