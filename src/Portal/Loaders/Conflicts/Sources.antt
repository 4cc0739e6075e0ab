-- ===== src/Portal/Loaders/Conflicts/Sources.antt =====
-- The audit of `loadEndpoints` against its meaning: the names that several endpoints resolve to.
use the_black_hole.Prelude.{
  String, List, [], ◌∷◌, ◌++◌, map, ◌≡◌, refl, sym, ap, ◌∙◌, ◌===◌, if◌then◌else◌, length, keep_if,
  ltb, eq_iff, arith, if_cases,
}
use mathlib.Core.List.{append-nil, append_assoc}
use the_black_hole.Portal.Types.{Connection, Endpoint}
use the_black_hole.Portal.Loaders.Conflicts.{
  NameMap, connection_of, name_of, full_name, add_source, resolve_names, clashing,
}

-- The sources that a map has for a name.
unfoldable pub sources_of : String → NameMap → List String
sources_of name [] = []
sources_of name ((key, sources) ∷ m) = if key === name then sources else sources_of name m

abbrev source : List Connection → Endpoint → String
source conns ep = name_of "Unknown" (connection_of conns ep)

-- What `resolvedNames` means: the connections of the endpoints with a full name, in their order.
abbrev pub offered : List Connection → String → List Endpoint → List String
offered conns name eps = map (source conns) (keep_if (λ ep. full_name conns ep === name) eps)

sources_of-add_source :
    (n name src : String) (m : NameMap)
    → sources_of n (add_source name src m)
      ≡ (if name === n then sources_of n m ++ src ∷ [] else sources_of n m)
unfolding sources_of add_source
sources_of-add_source n name src [] = refl
sources_of-add_source n name src ((key, ss) ∷ m) =
    let rest = sources_of-add_source n name src m in
    let e1 = eq_iff key name in let e2 = eq_iff key n in let e3 = eq_iff name n in ground arith

sources_of-resolve_names :
    (n : String) (conns : List Connection) (eps : List Endpoint) (m : NameMap)
    → sources_of n (resolve_names conns eps m) ≡ sources_of n m ++ offered conns n eps
unfolding resolve_names
sources_of-resolve_names n conns [] m = sym (append-nil _)
sources_of-resolve_names n conns (ep ∷ eps) m =
    let rest =
      sources_of-resolve_names n conns eps (add_source (full_name conns ep) (source conns ep) m) in
    let now = sources_of-add_source n (full_name conns ep) (source conns ep) m in
    let moved = append_assoc (sources_of n m) (source conns ep ∷ []) (offered conns n eps) in
    ground arith

-- No name has two entries with sources.
abbrev IsDistinct : NameMap → Type 0
IsDistinct [] = Unit
IsDistinct ((key, ss) ∷ m) = (sources_of key m ≡ []) × IsDistinct m

add_source-IsDistinct :
    (name src : String) (m : NameMap) → IsDistinct m → IsDistinct (add_source name src m)
unfolding sources_of add_source
add_source-IsDistinct name src [] d = (refl, tt)
add_source-IsDistinct name src ((key, ss) ∷ m) d =
    if_cases IsDistinct (key === name) _ _ (λ _. d)
      λ e.
        let here = sources_of-add_source key name src m in
        let same = eq_iff key name in
        let same' = eq_iff name key in (ground arith, add_source-IsDistinct name src m d.1)

resolve_names-IsDistinct :
    (conns : List Connection) (eps : List Endpoint) (m : NameMap)
    → IsDistinct m
    → IsDistinct (resolve_names conns eps m)
unfolding resolve_names
resolve_names-IsDistinct conns [] m d = d
resolve_names-IsDistinct conns (ep ∷ eps) m d =
    resolve_names-IsDistinct conns eps _ (add_source-IsDistinct _ _ m d)

-- What the audit reports of a list of sources: all of them, where there are several.
abbrev pub reported : List String → List String
reported sources = if ltb 1 (length sources) then sources else []

sources_of-clashing :
    (n : String) (m : NameMap)
    → IsDistinct m
    → sources_of n (clashing m) ≡ reported (sources_of n m)
unfolding sources_of clashing
sources_of-clashing n [] d = refl
sources_of-clashing n ((key, ss) ∷ m) d =
    let rest = sources_of-clashing n m d.1 in let same = eq_iff key n in ground arith

-- The audit of tool names reports a name if and only if several endpoints resolve to it, and then
-- with the connection of each of these endpoints, in their order.
pub clashing-sources :
    (n : String) (conns : List Connection) (eps : List Endpoint)
    → sources_of n (clashing (resolve_names conns eps [])) ≡ reported (offered conns n eps)
unfolding sources_of
clashing-sources n conns eps =
    sources_of-clashing n (resolve_names conns eps []) (resolve_names-IsDistinct conns eps [] tt)
    ∙ ap reported (sources_of-resolve_names n conns eps [])
