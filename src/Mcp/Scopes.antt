-- ===== src/Mcp/Scopes.antt =====
-- `matchScope`, and what it decides.
use the_black_hole.Prelude.{
  String, List, [], ◌∷◌, Bool, true, false, ◌&&◌, ◌===◌, ◌<>◌, if◌then◌else◌, has_prefix,
  has_suffix, drop_last, ◌≡◌, refl, ap, ◌∙◌, ◌↔◌, ◌⊎◌, inl, inr, eq_iff, Bool-cases, arith,
}
use Prim.Native.String
use text.Mathlib.TextBridge.{IsPrefix}
use text.Mathlib.TextEquality.{starts_with_iff}

-- `matchScope`
unfoldable pub match_scope : (tool_name : String) (scopes : List String) → Bool
match_scope tool [] = false
match_scope tool (scope ∷ scopes) =
    if scope === "*"
    then true
    else if has_suffix scope "*" && has_prefix tool (drop_last scope)
    then true
    else if tool === scope
    then true
    else match_scope tool scopes

-- A scope allows the tool of its own name, and where it ends in `*`, every tool that begins as it does.
abbrev pub Allows : (tool scope : String) → Type 0
Allows tool scope =
    (tool ≡ scope) ⊎ ((prefix : String) × (scope ≡ prefix <> "*") × IsPrefix prefix tool)

abbrev pub AnyAllows : (tool : String) → List String → Type 0
AnyAllows tool [] = ⊥
AnyAllows tool (scope ∷ scopes) = Allows tool scope ⊎ AnyAllows tool scopes

has_suffix-drop_last : (s : String) → has_suffix s "*" ≡ true → s ≡ drop_last s <> "*"
unfolding has_suffix drop_last
has_suffix-drop_last String.[] h = cc
has_suffix-drop_last (String.◌∷◌ c String.[]) h =
    elim (Bool-cases ((String.◌∷◌ c String.[]) === "*")) [
      | inl y ↦ (eq_iff (String.◌∷◌ c String.[]) "*").0 y
      | inr n ↦ ground arith
    ]
has_suffix-drop_last (String.◌∷◌ c (String.◌∷◌ d s)) h =
    let whole = (eq_iff (String.◌∷◌ c (String.◌∷◌ d s)) "*").0 in
    elim (Bool-cases (has_suffix (String.◌∷◌ d s) "*")) [
      | inl y ↦ ap (String.◌∷◌ c) (has_suffix-drop_last (String.◌∷◌ d s) y)
      | inr n ↦ let e : String.◌∷◌ c (String.◌∷◌ d s) ≡ "*" = whole (ground arith) in cc
    ]

has_suffix_star : (s : String) → has_suffix (s <> "*") "*" ≡ true
unfolding has_suffix
has_suffix_star String.[] = refl
has_suffix_star (String.◌∷◌ c s) = let rest = has_suffix_star s in ground arith

drop_last_star : (s : String) → drop_last (s <> "*") ≡ s
unfolding drop_last
drop_last_star String.[] = refl
drop_last_star (String.◌∷◌ c String.[]) = refl
drop_last_star (String.◌∷◌ c (String.◌∷◌ d s)) = ap (String.◌∷◌ c) (drop_last_star (String.◌∷◌ d s))

match_scope-Allows :
    (tool : String) (scopes : List String) → match_scope tool scopes ≡ true → AnyAllows tool scopes
unfolding match_scope
match_scope-Allows tool [] h = cc
match_scope-Allows tool (scope ∷ scopes) h = elim (Bool-cases (scope === "*")) [
  | inl star ↦ inl (inr ("", (eq_iff scope "*").0 star, (tool, String.append.nil tool)))
  | inr no_star ↦ elim (Bool-cases (has_suffix scope "*" && has_prefix tool (drop_last scope))) [
    | inl y ↦
        let ends : has_suffix scope "*" ≡ true = ground arith in
        let starts : has_prefix tool (drop_last scope) ≡ true = ground arith in
        inl (
          inr (
            drop_last scope,
            has_suffix-drop_last scope ends,
            (starts_with_iff tool (drop_last scope)).0 starts,
          ))
    | inr no_pre ↦ elim (Bool-cases (tool === scope)) [
      | inl same ↦ inl (inl ((eq_iff tool scope).0 same))
      | inr no_same ↦ inr (match_scope-Allows tool scopes (ground arith))
    ]
  ]
]

Allows-match_scope :
    (tool : String) (scopes : List String) → AnyAllows tool scopes → match_scope tool scopes ≡ true
unfolding match_scope
Allows-match_scope tool [] h = elim h [ ]
Allows-match_scope tool (scope ∷ scopes) (inl (inl same)) =
    let y = (eq_iff tool scope).1 same in ground arith
Allows-match_scope tool (scope ∷ scopes) (inl (inr (prefix, split, begins))) =
    let ends : has_suffix scope "*" ≡ true =
      ap (λ s. has_suffix s "*") split ∙ has_suffix_star prefix in
    let cut : drop_last scope ≡ prefix = ap drop_last split ∙ drop_last_star prefix in
    let starts : has_prefix tool (drop_last scope) ≡ true =
      ap (has_prefix tool) cut ∙ (starts_with_iff tool prefix).1 begins in
    ground arith
Allows-match_scope tool (scope ∷ scopes) (inr rest) =
    let more = Allows-match_scope tool scopes rest in ground arith

-- `matchScope` accepts a tool if and only if one of the scopes is its name, or ends in `*` behind a text
-- that the name begins with.
pub match_scope_iff :
    (tool : String) (scopes : List String)
    → (match_scope tool scopes ≡ true) ↔ AnyAllows tool scopes
match_scope_iff tool scopes = (match_scope-Allows tool scopes, Allows-match_scope tool scopes)
