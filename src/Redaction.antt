-- ===== src/Redaction.antt =====
-- pkg/redaction: the masking of secrets in the arguments and the results of tool calls. What a
-- regular expression finds is a parameter of each rule.
pub mod Luhn
pub mod Rules
pub mod Walk
pub mod Findings
mod Tests
use the_black_hole.Prelude.{
  ℕ, zero, ◌+◌, ◌-◌, String, List, [], ◌∷◌, Option, none, some, Bool, true, false, not, ◌||◌, ◌===◌,
  ◌<>◌, ltb, ◌==◌, if◌then◌else◌, is_set, text_take, text_drop, text_leb,
}
use the_black_hole.Json.{
  Value, null, flag, number, text, array, object, Items, nil, cons, Fields, end, field,
}

-- A match of a regular expression in a text: `m[0]` and `m[1]`, counted in characters.
pub record Span : Type 0 where
  pub start : ℕ
  pub stop : ℕ

-- `compiledRule`: `find_all` is `re.FindAllStringSubmatchIndex`, `expand` is `re.ExpandString` on an
-- empty buffer, both of package regexp. A missing `validate` is `nil`.
pub record CompiledRule : Type 0 where
  pub class : String
  pub find_all : String → List Span
  pub expand : (template text : String) → Span → String
  pub validate : Option (String → Bool)
  pub replace_tpl : String

-- `Redactor`
pub record Redactor : Type 0 where
  pub enabled : Bool
  pub rules : List CompiledRule

-- `text[from:to]`
abbrev pub slice : ℕ → ℕ → String → String
slice from to s = text_take (to - from) (text_drop from s)

-- `rule.validate != nil && !rule.validate(match)`
unfoldable pub is_rejected : Option (String → Bool) → String → Bool
is_rejected none s = false
is_rejected (some f) s = not (f s)

-- What a match is replaced by.
unfoldable pub mask : CompiledRule → String → Span → String
mask rule s m =
    if is_set rule.replace_tpl
    then rule.expand rule.replace_tpl s m
    else "[REDACTED:" <> rule.class <> "]"

-- The variables of the loop of `applyRule`.
pub record Progress : Type 0 where
  pub out : String
  pub last : ℕ
  pub count : ℕ

-- One round of the loop.
unfoldable pub take_match : CompiledRule → String → Span → Progress → Progress
unfolding is_rejected mask
take_match rule s m p =
    if ltb m.start p.last || is_rejected rule.validate (slice m.start m.stop s) then p else record {
      out = p.out <> slice p.last m.start s <> mask rule s m;
      last = m.stop;
      count = p.count + 1;
    }

unfoldable pub take_matches : CompiledRule → String → List Span → Progress → Progress
unfolding take_match
take_matches rule s [] p = p
take_matches rule s (m ∷ ms) p = take_matches rule s ms (take_match rule s m p)

-- `applyRule`
unfoldable pub apply_rule : String → CompiledRule → String × ℕ
unfolding take_matches
apply_rule s rule =
    let p = take_matches rule s (rule.find_all s) (record { out = ""; last = 0; count = 0 }) in
    if p.count == 0 then (s, 0) else (p.out <> text_drop p.last s, p.count)

abbrev pub Counts : Type 0
Counts = List (String × ℕ)

-- `counts[class] += n`, on a map whose order says nothing.
unfoldable pub add_count : String → ℕ → Counts → Counts
add_count class n [] = (class, n) ∷ []
add_count class n ((key, k) ∷ m) =
    if key === class then (key, k + n) ∷ m else (key, k) ∷ add_count class n m

-- `if n > 0 { counts[rule.class] += n }`
unfoldable pub count_hits : String → ℕ → Counts → Counts
unfolding add_count
count_hits class n m = if ltb 0 n then add_count class n m else m

-- The loop of `RedactBytes` over the rules.
unfoldable pub apply_rules : List CompiledRule → String → Counts → String × Counts
unfolding apply_rule count_hits
apply_rules [] s m = (s, m)
apply_rules (rule ∷ rules) s m =
    let (s', n) = apply_rule s rule in apply_rules rules s' (count_hits rule.class n m)

-- `sort.Strings(classes)`, with the count of each class: an insertion sort by class.
unfoldable pub insert_finding : String × ℕ → Counts → Counts
insert_finding (class, n) [] = (class, n) ∷ []
insert_finding (class, n) ((key, k) ∷ m) =
    if text_leb class key then (class, n) ∷ (key, k) ∷ m else (key, k) ∷ insert_finding (class, n) m

-- `findingsFromCounts`; `Finding{Class: c, Count: n}` is the pair `(c, n)`, and no finding is `nil`.
unfoldable pub findings_from_counts : Counts → Counts
unfolding insert_finding
findings_from_counts [] = []
findings_from_counts (entry ∷ m) = insert_finding entry (findings_from_counts m)

-- `RedactBytes`
unfoldable pub redact_bytes : Redactor → String → String × Counts
unfolding apply_rules findings_from_counts
redact_bytes r s =
    if r.enabled
    then (let (s', m) = apply_rules r.rules s [] in (s', findings_from_counts m))
    else (s, [])

-- `for _, f := range findings { counts[f.Class] += f.Count }`
unfoldable pub tally_findings : Counts → Counts → Counts
unfolding add_count
tally_findings [] m = m
tally_findings ((class, n) ∷ fs) m = tally_findings fs (add_count class n m)

-- `redactValue`, which hands the counts on.
unfoldable mutual
  unfolding redact_bytes tally_findings

  pub redact_value : Redactor → Value → Counts → Value × Counts
  redact_value r null m = (null, m)
  redact_value r (flag b) m = (flag b, m)
  redact_value r (number n) m = (number n, m)
  redact_value r (text s) m =
      let (s', findings) = redact_bytes r s in (text s', tally_findings findings m)
  redact_value r (array xs) m = let (xs', m') = redact_items r xs m in (array xs', m')
  redact_value r (object fs) m = let (fs', m') = redact_fields r fs m in (object fs', m')

  pub redact_items : Redactor → Items → Counts → Items × Counts
  redact_items r nil m = (nil, m)
  redact_items r (cons v xs) m =
      let (v', m') = redact_value r v m in
      let (xs', m'') = redact_items r xs m' in (cons v' xs', m'')

  pub redact_fields : Redactor → Fields → Counts → Fields × Counts
  redact_fields r end m = (end, m)
  redact_fields r (field key v fs) m =
      let (v', m') = redact_value r v m in
      let (fs', m'') = redact_fields r fs m' in (field key v' fs', m'')

-- `RedactMap`
unfoldable pub redact_map : Redactor → Fields → Fields × Counts
unfolding redact_value
redact_map r fs = let (fs', m) = redact_fields r fs [] in (fs', findings_from_counts m)
