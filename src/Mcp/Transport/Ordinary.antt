-- ===== src/Mcp/Transport/Ordinary.antt =====
-- What clients without the role of an administrator can do to the gateway, over all transports.
use the_black_hole.Prelude.{
  String, List, [], ◌∷◌, some, not, ◌===◌, ltb, ◌≢◌, length, All, All-keep_if, ◌≡◌, refl, sym,
  subst, Bool-cases, if_cases, on_option_cases, inl, inr, arith,
}
use the_black_hole.Json.{Fields}
use the_black_hole.Mcp.Types.{Caller, Services, AuditLogEntry, RpcRequest, RpcResponse}
use the_black_hole.Mcp.Auth.{resolve_auth, extract_token, MayAdminister, resolve_auth_admin}
use the_black_hole.Mcp.Server.{
  Session, McpServer, handle_request, execute, log_audit_async, audit_worker, store_first,
}
use the_black_hole.Mcp.Server.Checks.{CallsKeep, handle_request-not_admin, handle_request-keeps}
use the_black_hole.Mcp.Transport.{
  HttpRequest, HttpReply, Event, streamable, sse, closed, message, worker, apply_event, run_events,
  finish, write_event, remove_session, accept_session, find_session, deliver, serve_streamable,
  serve_messages, open_session, close_session,
}

module _ {S : Type 0} (svc : Services S) where
  -- The token of a request may not administer the gateway, at the time of the request.
  abbrev pub IsOrdinary : Event → McpServer S → Type 0
  IsOrdinary (streamable r) srv =
      MayAdminister svc (extract_token r.authorization r.token_param) srv.backend → ⊥
  IsOrdinary (sse r) srv =
      MayAdminister svc (extract_token r.authorization r.token_param) srv.backend → ⊥
  IsOrdinary _ srv = Unit

  -- A run, its last event first, in which every request that is authenticated is an ordinary one.
  abbrev pub AreOrdinary : List Event → McpServer S → Type 0
  AreOrdinary [] srv = Unit
  AreOrdinary (e ∷ es) srv = IsOrdinary e (run_events svc es srv) × AreOrdinary es srv

  -- No session is one of an administrator.
  abbrev pub NoAdmin : List Session → Type 0
  NoAdmin ss = All (λ (s : Session). s.caller.role ≢ "admin") ss

  module _ (P : S → Type 0) (keep : CallsKeep svc P)
      (log_keeps : (e : AuditLogEntry) (s : S) → P s → P (svc.log_audit e s)) where
    abbrev Kept : McpServer S → Type 0
    Kept srv = P srv.backend × NoAdmin srv.sessions

    execute-sessions :
        (caller : Caller) (name : String) (args : Fields) (srv : McpServer S)
        → (execute svc caller name args srv).0.sessions ≡ srv.sessions
    unfolding execute log_audit_async
    execute-sessions caller name args srv =
        if_cases (λ (r : McpServer S). r.sessions ≡ srv.sessions) _ _ _ (λ y. refl) (λ n. refl)

    handle_request-Kept :
        (caller : Caller) (req : RpcRequest) (srv : McpServer S)
        → caller.role ≢ "admin"
        → Kept srv
        → Kept (handle_request svc caller req srv).0
    handle_request-Kept caller req srv other k = (
      handle_request-not_admin svc P keep caller req srv other k.0,
      handle_request-keeps svc (λ (r : McpServer S). NoAdmin r.sessions) caller req srv
          (λ name args passed. subst NoAdmin (sym (execute-sessions caller name args srv)) k.1) k.1,
    )

    finish-Kept :
        (origin : String) (req : RpcRequest) (r : McpServer S × RpcResponse)
        → Kept r.0
        → Kept (finish svc origin req r).0
    unfolding finish
    finish-Kept origin req (srv, resp) k =
        if_cases (λ (r : McpServer S × HttpReply). Kept r.0) (req.method === "initialize") _ _
          (λ y. (keep.1 _ k.0, k.1)) (λ n. k)

    -- The caller of an ordinary request is no administrator.
    ordinary_role :
        (token : String) (s : S) (caller : Caller)
        → (MayAdminister svc token s → ⊥)
        → resolve_auth svc token s ≡ some caller
        → caller.role ≢ "admin"
    ordinary_role token s caller ordinary named admin =
        ordinary (resolve_auth_admin svc token s caller named admin)

    serve_streamable-Kept :
        (r : HttpRequest) (srv : McpServer S)
        → IsOrdinary (streamable r) srv
        → Kept srv
        → Kept (serve_streamable svc r srv).0
    unfolding serve_streamable
    serve_streamable-Kept r srv ordinary k =
        let Q : McpServer S × HttpReply → Type 0 = λ r. Kept r.0 in
        on_option_cases Q
          (resolve_auth svc (extract_token r.authorization r.token_param) srv.backend) _ _ (λ n. k)
          (λ caller named.
            on_option_cases Q r.body _ _ (λ n. k)
              (λ req y.
                on_option_cases Q req.id _ _ (λ n. k)
                  (λ id y. finish-Kept _ req _ (
                    handle_request-Kept caller req srv (ordinary_role _ _ caller ordinary named)
                      k))))

    NoAdmin-remove_session :
        (id : String) (ss : List Session) → NoAdmin ss → NoAdmin (remove_session svc id ss)
    unfolding remove_session
    NoAdmin-remove_session id ss h = All-keep_if _ (λ (s : Session). not (s.id === id)) ss h

    open_session-Kept :
        (r : HttpRequest) (srv : McpServer S)
        → IsOrdinary (sse r) srv
        → Kept srv
        → Kept (open_session svc r srv).0
    unfolding open_session accept_session
    open_session-Kept r srv ordinary k =
        let Q : McpServer S × HttpReply → Type 0 = λ r. Kept r.0 in
        on_option_cases Q
          (resolve_auth svc (extract_token r.authorization r.token_param) srv.backend) _ _ (λ n. k)
          (λ caller named.
            if_cases Q (ltb (length srv.sessions) svc.max_sessions) _ _
              (λ room. (
                keep.1 _ k.0,
                (
                  ordinary_role _ _ caller ordinary named,
                  NoAdmin-remove_session _ srv.sessions k.1,
                ),
              ))
              (λ n. (keep.1 _ k.0, k.1)))

    NoAdmin-write_event :
        (id : String) (resp : RpcResponse) (ss : List Session)
        → NoAdmin ss
        → NoAdmin (write_event svc id resp ss)
    unfolding write_event
    NoAdmin-write_event id resp [] h = tt
    NoAdmin-write_event id resp (s ∷ ss) h =
        if_cases NoAdmin (s.id === id) _ _ (λ y. h) (λ n. (h.0, NoAdmin-write_event id resp ss h.1))

    find_session-role :
        (id : String) (ss : List Session) (session : Session)
        → find_session svc id ss ≡ some session
        → NoAdmin ss
        → session.caller.role ≢ "admin"
    unfolding find_session
    find_session-role id [] session e h = cc
    find_session-role id (s ∷ ss) session e h = elim (Bool-cases (s.id === id)) [
      | inl y ↦
          let same : s ≡ session = ground arith in
          subst (λ (t : Session). t.caller.role ≢ "admin") same h.0
      | inr n ↦ find_session-role id ss session (ground arith) h.1
    ]

    deliver-Kept :
        (session : Session) (req : RpcRequest) (srv : McpServer S)
        → session.caller.role ≢ "admin"
        → Kept srv
        → Kept (deliver svc session req srv).0
    unfolding deliver
    deliver-Kept session req srv other k =
        let kept = handle_request-Kept session.caller req srv other k in
        (kept.0, NoAdmin-write_event _ _ _ kept.1)

    serve_messages-Kept :
        (r : HttpRequest) (srv : McpServer S) → Kept srv → Kept (serve_messages svc r srv).0
    unfolding serve_messages
    serve_messages-Kept r srv k =
        let Q : McpServer S × HttpReply → Type 0 = λ r. Kept r.0 in
        if_cases Q (not (r.method === "POST")) _ _ (λ y. k)
          (λ n.
            on_option_cases Q (find_session svc r.session_param srv.sessions) _ _ (λ n. k)
              (λ session found.
                if_cases Q
                  (not (
                    svc.digest (extract_token r.authorization r.token_param)
                    === session.token_hash))
                  _ _ (λ y. k)
                  (λ n.
                    on_option_cases Q r.body _ _ (λ n. k)
                      (λ req y.
                        on_option_cases Q req.id _ _ (λ n. k)
                          (λ id y.
                            deliver-Kept session req srv
                              (find_session-role _ srv.sessions session found k.1) k)))))

    store_first-Kept :
        (es : List AuditLogEntry) (srv : McpServer S) → Kept srv → Kept (store_first svc es srv)
    unfolding store_first
    store_first-Kept [] srv k = k
    store_first-Kept (e ∷ es) srv k = (log_keeps _ _ k.0, k.1)

    apply_event-Kept :
        (e : Event) (srv : McpServer S) → IsOrdinary e srv → Kept srv → Kept (apply_event svc e srv)
    unfolding apply_event close_session audit_worker
    apply_event-Kept (streamable r) srv o k = serve_streamable-Kept r srv o k
    apply_event-Kept (sse r) srv o k = open_session-Kept r srv o k
    apply_event-Kept (closed id) srv o k = (k.0, NoAdmin-remove_session id srv.sessions k.1)
    apply_event-Kept (message r) srv o k = serve_messages-Kept r srv k
    apply_event-Kept worker srv o k = store_first-Kept srv.audit_ch srv k

    -- A run from a server without a session of an administrator, in which no token may administer the
    -- gateway when a request shows it to the transports that authenticate it: what calls of the APIs, new
    -- identifiers and the audit log keep, the run keeps, and no session becomes one of an administrator.
    pub run_events-NoAdmin :
        (es : List Event) (srv : McpServer S)
        → AreOrdinary es srv
        → P srv.backend
        → NoAdmin srv.sessions
        → P (run_events svc es srv).backend × NoAdmin (run_events svc es srv).sessions
    unfolding run_events
    run_events-NoAdmin [] srv o h n = (h, n)
    run_events-NoAdmin (e ∷ es) srv o h n =
        apply_event-Kept e (run_events svc es srv) o.0 (run_events-NoAdmin es srv o.1 h n)
