-- ===== src/Storage/Pins.antt =====
-- What strict pinning of tools (pkg/mcp/server.go) makes of the hashes that pkg/storage/db.go stores.
use the_black_hole.Prelude.{
  ℕ, String, List, [], ◌∷◌, none, some, false, not, ◌===◌, ◌<>◌, ◌≡◌, ◌≢◌, inl, inr, ◌+◌, suc, refl,
  ap, ◌∙◌, subst, All, Bool-cases, Option-cases, eq_iff, has_prefix, arith,
}
use the_black_hole.Prelude.Results.{ok, Result-cases}
use the_black_hole.ToolIntegrity.{Codec, hash, changed}
use the_black_hole.Mcp.Types.{ApiConnection, ApiEndpoint, Services}
use the_black_hole.Mcp.Tools.{
  definition_of, find_endpoint, find_named, resolved_name, owner, tool_definition_changed,
}
use the_black_hole.Storage.{Db, get_all_endpoints}
use the_black_hole.Storage.Runs.{Change, run_changes}
use the_black_hole.Storage.Hashes.{IsStamped, AllStamped, run_changes-AllStamped}
use the_black_hole.Storage.Caches.{IsCoherent, run_changes-IsCoherent, read_endpoints}

-- What `find_named` finds is one of the endpoints, under its exposed name.
find_named-All :
    (P : ApiEndpoint → Type 0) (name : String) (conns : List ApiConnection) (eps : List ApiEndpoint)
    (ep : ApiEndpoint) (conn : ApiConnection)
    → All P eps
    → find_named name conns eps ≡ some (ep, conn)
    → P ep × (resolved_name conn ep ≡ name)
unfolding find_named
find_named-All P name conns [] ep conn h e = cc
find_named-All P name conns (x ∷ eps) ep conn h e = elim (Option-cases (owner conns x)) [
  | inl n ↦ find_named-All P name conns eps ep conn h.1 (let skip = n in cc)
  | inr (c, y) ↦ elim (Bool-cases (resolved_name c x === name)) [
    | inl same ↦
        let at = y in
        let is = same in
        let found : x ≡ ep = ground arith in
        let owned : c ≡ conn = ground arith in
        let named = (eq_iff (resolved_name c x) name).0 same in (subst P found h.0, (cc))
    | inr other ↦
        find_named-All P name conns eps ep conn h.1 (let at = y in let skip = other in ground arith)
  ]
]

-- How long a text is.
abbrev size : String → ℕ
size String.[] = 0
size (String.◌∷◌ c s) = suc (size s)

size-<> : (s t : String) → size (s <> t) ≡ size s + size t
size-<> String.[] t = omega arith
size-<> (String.◌∷◌ c s) t = let rest = size-<> s t in omega arith

-- A name with something before it is another name.
prefixed_differs : (p t : String) → p ≢ "" → p <> t ≢ t
prefixed_differs String.[] t h e = absurd (h refl)
prefixed_differs (String.◌∷◌ c s) t h e =
    let long = ap size e in let parts = size-<> s t in omega arith

-- The definition of a stamped endpoint hashes to what is stored under no other name than its own, or
-- SHA-256 collides.
changed-resolved_name :
    (codec : Codec) (conn : ApiConnection) (ep : ApiEndpoint) (name : String)
    → IsStamped codec ep
    → resolved_name conn ep ≡ name
    → ep.definition_hash ≢ ""
    → (hash codec (definition_of name ep) ≡ hash codec (definition_of ep.tool_name ep)
        → name ≡ ep.tool_name)
    → changed codec ep.definition_hash (definition_of name ep) ≡ not (conn.tool_prefix === "")
unfolding changed resolved_name
changed-resolved_name codec conn ep name h e set apart =
    let stored = eq_iff ep.definition_hash "" in
    let fresh = eq_iff (hash codec (definition_of name ep)) ep.definition_hash in
    elim (Bool-cases (conn.tool_prefix === "")) [
      | inl bare ↦
          let plain : ep.tool_name ≡ name = ground arith in
          let same = ap (λ (n : String). hash codec (definition_of n ep)) plain in ground arith
      | inr prefixed ↦
          let set' = eq_iff conn.tool_prefix "" in
          let longer = prefixed_differs conn.tool_prefix ep.tool_name (λ z. ground arith) in
          let whole : conn.tool_prefix <> ep.tool_name ≡ name = ground arith in ground arith
    ]

-- The server's endpoints are those of the database after any calls from a state in which each stored
-- endpoint carries the hash of its own definition and the caches agree with the tables. Then strict
-- pinning takes the definition of a tool that is no management tool as changed exactly if its
-- connection has a prefix for names, whatever was saved: if the stored hash is not empty, and SHA-256
-- does not give one hash to the definition under two names.
pub tool_definition_changed-resolved_name :
    {S : Type 0} (svc : Services S) (s : S) (name : String) (ep : ApiEndpoint)
    (conn : ApiConnection) (hash_token : String → String) (cs : List Change) (db : Db) (now : ℕ)
    → AllStamped svc.codec db
    → IsCoherent db
    → svc.get_all_endpoints s
      ≡ (get_all_endpoints now none (run_changes svc.codec hash_token cs db)).1
    → has_prefix name "admin_" ≡ false
    → find_endpoint svc name s ≡ ok (some (ep, conn))
    → ep.definition_hash ≢ ""
    → (hash svc.codec (definition_of name ep) ≡ hash svc.codec (definition_of ep.tool_name ep)
        → name ≡ ep.tool_name)
    → tool_definition_changed svc name s ≡ ok (not (conn.tool_prefix === ""))
unfolding tool_definition_changed find_endpoint
tool_definition_changed-resolved_name svc s name ep conn hash_token cs db now stamped coherent store
      plain found set apart =
    let after = run_changes svc.codec hash_token cs db in
    let hashed = run_changes-AllStamped svc.codec hash_token cs db stamped in
    let rows : svc.get_all_endpoints s ≡ ok after.endpoints =
      store
      ∙ read_endpoints svc.codec hash_token now after
          (run_changes-IsCoherent svc.codec hash_token cs db coherent) in
    elim (Result-cases (svc.get_connections s)) [
      | inr (conns, y) ↦
          let read = y in
          let named : find_named name conns after.endpoints ≡ some (ep, conn) = ground arith in
          let hit =
            find_named-All (IsStamped svc.codec) name conns after.endpoints ep conn hashed named in
          let answer = changed-resolved_name svc.codec conn ep name hit.0 hit.1 set apart in
          ground arith
      | inl (x, n) ↦ let unread = n in ground arith
    ]
