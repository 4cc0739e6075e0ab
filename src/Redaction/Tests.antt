-- ===== src/Redaction/Tests.antt =====
-- The theorems on the redaction at concrete inputs.
use the_black_hole.Prelude.{[], ◌∷◌, some, true, ◌≡◌, ◌===◌, Char, length, if◌then◌else◌, arith}
use the_black_hole.Json.{Fields, end, field, text, number}
use the_black_hole.Redaction.{CompiledRule, Redactor, apply_rule, redact_map}
use the_black_hole.Redaction.Rules.{accepted, spread, apply_rule_lem}
use the_black_hole.Redaction.Findings.{IsByClass, total, fields_hits, redact_map_findings}

-- It finds the first two and the last character of one text, and rejects the latter.
abbrev pins : CompiledRule
pins = record {
  class = "pin";
  find_all = λ s.
      if s === "42 x"
      then (record { start = 0; stop = 2 } ∷ record { start = 3; stop = 4 } ∷ [])
      else [];
  expand = λ template s m. template;
  validate = some (λ s. s === "42");
  replace_tpl = "";
}

abbrev redactor : Redactor
redactor = record { enabled = true; rules = pins ∷ [] }

abbrev arguments : Fields
arguments = field "a" (text "42 x") (field "n" (number "7") end)

apply_rule_lem_example : apply_rule "42 x" pins ≡ (
  spread pins "42 x" 0 (accepted pins "42 x" (pins.find_all "42 x")),
  length (accepted pins "42 x" (pins.find_all "42 x")),
)
apply_rule_lem_example =
    apply_rule_lem pins "42 x" (omega arith, omega arith, (omega arith, omega arith, tt))

redact_map_findings_example :
    IsByClass (redact_map redactor arguments).1
    × (total (redact_map redactor arguments).1 ≡ fields_hits redactor arguments)
redact_map_findings_example = redact_map_findings redactor arguments

abbrev three : Char
three = "3"
