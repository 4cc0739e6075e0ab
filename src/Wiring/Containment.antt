-- ===== src/Wiring/Containment.antt =====
-- What clients without the role of an administrator can do to the store and to the network.
use the_black_hole.Prelude.{ℕ, String, List, none, some, ◌≡◌, refl, ap, ◌∙◌, arith, Option, false}
use the_black_hole.Cache.{TtlCache, get, set, is_enabled}
use the_black_hole.Storage.{Db, get_connections, get_all_endpoints}
use the_black_hole.Prelude.Results.{ℤ}
use the_black_hole.Mcp.Types.{Services, AuditLogEntry}
use the_black_hole.Mcp.Server.{McpServer}
use the_black_hole.Mcp.Transport.{Event, run_events}
use the_black_hole.Mcp.Transport.Ordinary.{AreOrdinary, NoAdmin, run_events-NoAdmin}
use the_black_hole.Gateway.Call.{Environment, Request}
use the_black_hole.Gateway.Call.Requests.{IsAllowed, execute_call-IsAllowed}
use the_black_hole.Wiring.{Backend, Outside, IsUncached, wired}

get-off :
    {V : Type 0} (now : ℕ) (key : String) (c : Option (TtlCache V))
    → is_enabled c ≡ false
    → get now key c ≡ none
unfolding get is_enabled
get-off now key none h = refl
get-off now key (some c) h = ground arith

set-off :
    {V : Type 0} (now : ℕ) (key : String) (v : V) (c : Option (TtlCache V))
    → is_enabled c ≡ false
    → set now key v c ≡ c
unfolding set is_enabled
set-off now key v none h = refl
set-off now key v (some c) h = ground arith

-- A read of a store whose caches are off leaves the store as it is.
reads-uncached :
    (now : ℕ) (db : Db)
    → IsUncached db
    → ((get_connections now none db).0 ≡ db) × ((get_all_endpoints now none db).0 ≡ db)
unfolding get_connections get_all_endpoints
reads-uncached now db (off, off') = (
  rw (get-off now "all" db.conn_cache off, set-off now "all" db.connections db.conn_cache off) refl,
  rw (get-off now "all" db.ep_cache off', set-off now "all" db.endpoints db.ep_cache off') refl,
)

module _ {S A U : Type 0} (env : Environment S A U) (out : Outside S) (base : Services (Backend S))
    (Q : S → Type 0) (looked_up : (ref : String) (s : S) → Q s → Q (env.get_secret ref s).0)
    (requested : (req : Request)
      → IsAllowed env req
      → (s : S) → Q s
      → Q ((env.network req).do_request s).0)
    (waited : (req : Request) (b : ℤ) (s : S) → Q s → Q ((env.network req).wait b s).0)
    (logged : (e : AuditLogEntry) (s : S) → Q s → Q (out.log_audit e s))
    (named : (s : S) → Q s → Q (out.new_uuid s).0)
    (queried : (q : List (String × String)) (u : U)
      → (env.scheme (env.with_query q u) ≡ env.scheme u)
        × (env.hostname (env.with_query q u) ≡ env.hostname u)) where
  -- A run of the server over its store and its client, where OAuth and the caches of the store are off,
  -- from a state without a session of an administrator, in which no token may administer the gateway when
  -- a request shows it to the transports that authenticate it: the store stays as it is, and is so after a
  -- read of connections or endpoints at any time, and what lookups in the vault, waiting, the audit log,
  -- new identifiers and requests to URLs that pass `validateEgress` keep, the run keeps. A query changes
  -- neither the scheme nor the host of a URL.
  pub run_events-Contained :
      (now : ℕ) (es : List Event) (srv : McpServer (Backend S))
      → IsUncached srv.backend.db
      → AreOrdinary (wired env out base) es srv
      → NoAdmin (wired env out base) srv.sessions
      → Q srv.backend.client.outside
      → let after : Backend S = (run_events (wired env out base) es srv).backend in
        (after.db ≡ srv.backend.db)
        × ((get_connections now none after.db).0 ≡ srv.backend.db)
        × ((get_all_endpoints now none after.db).0 ≡ srv.backend.db)
        × Q after.client.outside
  unfolding wired
  run_events-Contained now es srv off ordinary others q =
      let same =
        (run_events-NoAdmin (wired env out base)
          (λ (b : Backend S). (b.db ≡ srv.backend.db) × Q b.client.outside)
          (
            (λ conn ep args b h. (
              h.0,
              execute_call-IsAllowed env Q looked_up requested waited conn ep (out.order args)
                  b.client queried h.1,
            )),
            (λ b h. (h.0, named _ h.1)),
          )
          (λ e b h. (h.0, logged e _ h.1)) es srv ordinary (refl, q) others).0 in
      let (conns, eps) = reads-uncached now srv.backend.db off in
      (
        same.0,
        ap (λ (x : Db). (get_connections now none x).0) same.0 ∙ conns,
        ap (λ (x : Db). (get_all_endpoints now none x).0) same.0 ∙ eps,
        same.1,
      )
