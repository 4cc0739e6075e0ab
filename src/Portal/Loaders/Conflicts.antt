-- ===== src/Portal/Loaders/Conflicts.antt =====
-- The audit of `loadEndpoints`: which tool names are offered by more than one connection. The map
-- `resolvedNames` keeps its keys in the order of their insertion, as an association list does.
pub mod Sources
use the_black_hole.Prelude.{
  String, List, [], ◌∷◌, ◌++◌, Option, none, some, ◌===◌, ◌<>◌, if◌then◌else◌, length, find_first,
  join, ltb,
}
use the_black_hole.Portal.Types.{Connection, Endpoint}

abbrev pub NameMap : Type 0
NameMap = List (String × List String)

-- `STATE.connections.find(c => c.id === ep.connection_id)`
unfoldable pub connection_of : List Connection → Endpoint → Option Connection
connection_of conns ep = find_first (λ c. c.id === ep.connection_id) conns

-- `conn ? conn.tool_prefix : ''`
unfoldable pub prefix_of : Option Connection → String
prefix_of none = ""
prefix_of (some c) = c.tool_prefix

-- `conn ? conn.name : other`
unfoldable pub name_of : String → Option Connection → String
name_of other none = other
name_of other (some c) = c.name

-- `prefix + ep.tool_name`
unfoldable pub full_name : List Connection → Endpoint → String
unfolding prefix_of connection_of
full_name conns ep = prefix_of (connection_of conns ep) <> ep.tool_name

-- `if (has(name)) get(name).push(source) else set(name, [source])`
unfoldable pub add_source : String → String → NameMap → NameMap
add_source name source [] = (name, source ∷ []) ∷ []
add_source name source ((key, sources) ∷ m) =
    if key === name
    then (key, sources ++ source ∷ []) ∷ m
    else (key, sources) ∷ add_source name source m

unfoldable pub resolve_names : List Connection → List Endpoint → NameMap → NameMap
unfolding full_name name_of add_source
resolve_names conns [] m = m
resolve_names conns (ep ∷ eps) m =
    resolve_names conns eps
      (add_source (full_name conns ep) (name_of "Unknown" (connection_of conns ep)) m)

-- `resolvedNames.forEach`: the names with several sources
unfoldable pub clashing : NameMap → List (String × List String)
clashing [] = []
clashing ((key, sources) ∷ m) =
    if ltb 1 (length sources) then (key, sources) ∷ clashing m else clashing m

-- `"key" (APIs: a, b)`
unfoldable pub clash_text : String × List String → String
unfolding join
clash_text (key, sources) = "\"" <> key <> "\" (APIs: " <> join ", " sources <> ")"

unfoldable pub clash_texts : List (String × List String) → List String
unfolding clash_text
clash_texts [] = []
clash_texts (c ∷ cs) = clash_text c ∷ clash_texts cs
