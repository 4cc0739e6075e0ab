-- ===== src/Mcp/Tools/Listing.antt =====
-- `listTools` against `findEndpoint`: what is listed and what a call of it reaches.
use the_black_hole.Prelude.{
  String, List, [], ◌∷◌, ◌++◌, some, true, ◌===◌, if◌then◌else◌, has_prefix, ◌≡◌, ◌⊎◌, inl, inr,
  refl, sym, ap, ◌∙◌, subst, All, All-map, All-append, Bool-cases, if_cases, Option-cases, eq_iff,
  eq_refl, arith,
}
use the_black_hole.Prelude.Results.{ok, Result-cases}
use the_black_hole.ToolIntegrity.{Codec}
use the_black_hole.Mcp.Types.{ApiConnection, ApiEndpoint, Tool, Services}
use the_black_hole.Mcp.Scopes.{match_scope}
use the_black_hole.Mcp.Tools.{
  owner, resolved_name, endpoint_tool, list_endpoints, allowed_tools, admin_tools, list_tools,
  find_named, find_endpoint,
}

-- A tool that the scopes allow and that an endpoint backs.
abbrev IsBacked : (scopes : List String) → List ApiConnection → List ApiEndpoint → Tool → Type 0
IsBacked scopes conns eps t =
    (match_scope t.name scopes ≡ true)
    × (found : ApiEndpoint × ApiConnection) × (find_named t.name conns eps ≡ some found)

IsBacked-cons :
    (scopes : List String) (conns : List ApiConnection) (ep : ApiEndpoint) (eps : List ApiEndpoint)
    (t : Tool)
    → IsBacked scopes conns eps t
    → IsBacked scopes conns (ep ∷ eps) t
unfolding find_named
IsBacked-cons scopes conns ep eps t (allowed, found, e) = elim (Option-cases (owner conns ep)) [
  | inl off ↦ (allowed, found, ground arith)
  | inr (conn, on) ↦ elim (Bool-cases (resolved_name conn ep === t.name)) [
    | inl y ↦ (allowed, (ep, conn), ground arith)
    | inr n ↦ (allowed, found, ground arith)
  ]
]

-- An endpoint adds its tool to the list, or nothing.
list_endpoints-cons :
    (codec : Codec) (scopes : List String) (conns : List ApiConnection) (ep : ApiEndpoint)
    (eps : List ApiEndpoint)
    → (list_endpoints codec scopes conns (ep ∷ eps) ≡ list_endpoints codec scopes conns eps)
      ⊎ ((conn : ApiConnection) × (owner conns ep ≡ some conn)
          × (match_scope (resolved_name conn ep) scopes ≡ true)
          × (list_endpoints codec scopes conns (ep ∷ eps)
              ≡ endpoint_tool codec conn ep ∷ list_endpoints codec scopes conns eps))
unfolding list_endpoints
list_endpoints-cons codec scopes conns ep eps = elim (Option-cases (owner conns ep)) [
  | inl off ↦ inl (ground arith)
  | inr (conn, on) ↦ elim (Bool-cases (match_scope (resolved_name conn ep) scopes)) [
    | inl y ↦ inr (conn, on, y, ground arith)
    | inr n ↦ inl (ground arith)
  ]
]

endpoint_tool-IsBacked :
    (codec : Codec) (scopes : List String) (conns : List ApiConnection) (conn : ApiConnection)
    (ep : ApiEndpoint) (eps : List ApiEndpoint)
    → owner conns ep ≡ some conn
    → match_scope (resolved_name conn ep) scopes ≡ true
    → IsBacked scopes conns (ep ∷ eps) (endpoint_tool codec conn ep)
unfolding find_named endpoint_tool
endpoint_tool-IsBacked codec scopes conns conn ep eps on allowed =
    let same = eq_refl (resolved_name conn ep) in (allowed, (ep, conn), ground arith)

list_endpoints-IsBacked :
    (codec : Codec) (scopes : List String) (conns : List ApiConnection) (eps : List ApiEndpoint)
    → All (IsBacked scopes conns eps) (list_endpoints codec scopes conns eps)
unfolding list_endpoints
list_endpoints-IsBacked codec scopes conns [] = tt
list_endpoints-IsBacked codec scopes conns (ep ∷ eps) =
    let P = IsBacked scopes conns (ep ∷ eps) in
    let rest =
      All-map (IsBacked scopes conns eps) P (IsBacked-cons scopes conns ep eps) _
        (list_endpoints-IsBacked codec scopes conns eps) in
    elim (list_endpoints-cons codec scopes conns ep eps) [
      | inl e ↦ subst (All P) (sym e) rest
      | inr (conn, on, allowed, e) ↦
          subst (All P) (sym e)
            (endpoint_tool-IsBacked codec scopes conns conn ep eps on allowed, rest)
    ]

-- What a client may rely on for a tool that it is shown.
abbrev pub IsCallable :
    {S : Type 0} → Services S → (role : String) (scopes : List String) → S → Tool → Type 0
IsCallable svc role scopes s t =
    (match_scope t.name scopes ≡ true)
    × (((role ≡ "admin") × (has_prefix t.name "admin_" ≡ true))
        ⊎ ((found : ApiEndpoint × ApiConnection) × (find_endpoint svc t.name s ≡ ok (some found))))

allowed_tools-All {ℓ} :
    (P : Tool → Type ℓ) (scopes : List String) (ts : List Tool)
    → All P ts
    → All (λ t. (match_scope t.name scopes ≡ true) × P t) (allowed_tools scopes ts)
unfolding allowed_tools
allowed_tools-All P scopes [] h = tt
allowed_tools-All P scopes (t ∷ ts) h =
    let rest = allowed_tools-All P scopes ts h.1 in
    if_cases (All (λ t. (match_scope t.name scopes ≡ true) × P t)) (match_scope t.name scopes)
      (t ∷ allowed_tools scopes ts) (allowed_tools scopes ts) (λ y. ((y, h.0), rest)) (λ n. rest)

-- Where `listTools` gives a list, the scopes of the caller allow each tool of it, and
-- `findEndpoint` finds an endpoint under its name, or else the caller is an administrator and the
-- name begins as those of the management tools do.
pub list_tools-IsCallable :
    {S : Type 0} (svc : Services S) (role : String) (scopes : List String) (s : S)
    (tools : List Tool)
    → list_tools svc role scopes s ≡ ok tools
    → All (IsCallable svc role scopes s) tools
unfolding list_tools find_endpoint
list_tools-IsCallable svc role scopes s tools h = elim (Result-cases (svc.get_all_endpoints s)) [
  | inl (e, bad) ↦ ground arith
  | inr (eps, e1) ↦ elim (Result-cases (svc.get_connections s)) [
    | inl (e, bad) ↦ ground arith
    | inr (conns, e2) ↦
        let P = IsCallable svc role scopes s in
        let listed = list_endpoints svc.codec scopes conns eps in
        let more = if role === "admin" then allowed_tools scopes admin_tools else [] in
        let same : listed ++ more ≡ tools = cc in
        subst (All P) same (
          All-append P listed more
            (All-map (IsBacked scopes conns eps) P (λ t b. (b.0, inr (b.1, ground arith))) listed
              (list_endpoints-IsBacked svc.codec scopes conns eps))
            (if_cases (All P) (role === "admin") (allowed_tools scopes admin_tools) []
              (λ admin.
                All-map _ P (λ t b. (b.0, inl ((eq_iff role "admin").0 admin, b.1))) _
                  (allowed_tools-All (λ t. has_prefix t.name "admin_" ≡ true) scopes admin_tools
                    (refl, (refl, (refl, tt)))))
              (λ other. tt)))
  ]
]

-- Is an item in a list?
abbrev pub Has : Tool → List Tool → Type 0
Has t [] = ⊥
Has t (x ∷ xs) = (x ≡ t) ⊎ Has t xs

Has-append : (t : Tool) (xs ys : List Tool) → Has t xs → Has t (xs ++ ys)
Has-append t [] ys h = elim h [ ]
Has-append t (x ∷ xs) ys (inl e) = inl e
Has-append t (x ∷ xs) ys (inr h) = inr (Has-append t xs ys h)

Has-list_endpoints :
    (t : Tool) (codec : Codec) (scopes : List String) (conns : List ApiConnection)
    (ep : ApiEndpoint) (eps : List ApiEndpoint)
    → Has t (list_endpoints codec scopes conns eps)
    → Has t (list_endpoints codec scopes conns (ep ∷ eps))
Has-list_endpoints t codec scopes conns ep eps h =
    elim (list_endpoints-cons codec scopes conns ep eps) [
      | inl e ↦ subst (Has t) (sym e) h
      | inr (conn, on, allowed, e) ↦ subst (Has t) (sym e) (inr h)
    ]

find_named-listed :
    (codec : Codec) (scopes : List String) (name : String) (conns : List ApiConnection)
    (eps : List ApiEndpoint) (found : ApiEndpoint × ApiConnection)
    → find_named name conns eps ≡ some found
    → match_scope name scopes ≡ true
    → (resolved_name found.1 found.0 ≡ name)
      × Has (endpoint_tool codec found.1 found.0) (list_endpoints codec scopes conns eps)
unfolding find_named list_endpoints
find_named-listed codec scopes name conns [] found h allowed = ground arith
find_named-listed codec scopes name conns (e ∷ eps) found h allowed =
    let later : find_named name conns eps ≡ some found
        → (resolved_name found.1 found.0 ≡ name)
          × Has (endpoint_tool codec found.1 found.0)
              (list_endpoints codec scopes conns (e ∷ eps)) =
      λ h'.
        let (same, has) = find_named-listed codec scopes name conns eps found h' allowed in
        (same, Has-list_endpoints _ codec scopes conns e eps has) in
    elim (Option-cases (owner conns e)) [
      | inl off ↦ later (ground arith)
      | inr (c, on) ↦ elim (Bool-cases (resolved_name c e === name)) [
        | inl y ↦
            let same = (eq_iff (resolved_name c e) name).0 y in
            let it : (e, c) ≡ found = ground arith in
            let in_scope : match_scope (resolved_name c e) scopes ≡ true =
              ap (λ n. match_scope n scopes) same ∙ allowed in
            let shown : list_endpoints codec scopes conns (e ∷ eps)
                ≡ endpoint_tool codec c e ∷ list_endpoints codec scopes conns eps =
              ground arith in
            subst
              (λ f.
                (resolved_name f.1 f.0 ≡ name)
                × Has (endpoint_tool codec f.1 f.0) (list_endpoints codec scopes conns (e ∷ eps)))
              it (same, subst (Has (endpoint_tool codec c e)) (sym shown) (inl refl))
        | inr n ↦ later (ground arith)
      ]
    ]

-- Where `findEndpoint` finds an endpoint under a name and the scopes allow the name, `listTools`
-- gives a list, which has the tool of this endpoint, under this name.
pub find_endpoint-list_tools :
    {S : Type 0} (svc : Services S) (role name : String) (scopes : List String) (s : S)
    (ep : ApiEndpoint) (conn : ApiConnection)
    → find_endpoint svc name s ≡ ok (some (ep, conn))
    → match_scope name scopes ≡ true
    → (tools : List Tool) × (list_tools svc role scopes s ≡ ok tools)
      × Has (endpoint_tool svc.codec conn ep) tools
      × (resolved_name conn ep ≡ name)
unfolding list_tools find_endpoint
find_endpoint-list_tools svc role name scopes s ep conn h allowed =
    elim (Result-cases (svc.get_all_endpoints s)) [
      | inl (e, bad) ↦ ground arith
      | inr (eps, e1) ↦ elim (Result-cases (svc.get_connections s)) [
        | inl (e, bad) ↦ ground arith
        | inr (conns, e2) ↦
            let named : find_named name conns eps ≡ some (ep, conn) = cc in
            let (same, has) =
              find_named-listed svc.codec scopes name conns eps (ep, conn) named allowed in
            let more = if role === "admin" then allowed_tools scopes admin_tools else [] in
            let listed = list_endpoints svc.codec scopes conns eps in
            let shown : list_tools svc role scopes s ≡ ok (listed ++ more) = cc in
            (listed ++ more, shown, Has-append _ listed more has, same)
      ]
    ]
