-- ===== src/ToolIntegrity/Tests.antt =====
-- The theorems on the pinning of tools at concrete inputs.
use the_black_hole.Prelude.{
  String, some, none, false, ◌≡◌, ◌===◌, ◌<>◌, refl, eq_iff, if◌then◌else◌,
}
use the_black_hole.Json.{Value, text, number, object, end, field}
use the_black_hole.ToolIntegrity.{Codec, ToolDef, hash, changed}
use the_black_hole.ToolIntegrity.Canonical.{objects, swap, changed-SameTool}

abbrev ab : Value
ab = object (field "a" (number "1") (field "b" (number "2") end))

abbrev ba : Value
ba = object (field "b" (number "2") (field "a" (number "1") end))

abbrev codec : Codec
codec = record {
  parse = λ s. if s === "ab" then some ab else if s === "ba" then some ba else none;
  encode_scalar = λ v. elim v [ text s ↦ s | number n ↦ n | _ ↦ "" ];
  marshal = λ d. d.name <> d.parameters_schema;
  digest = λ s. "#" <> s;
}

abbrev tool : String → ToolDef
tool schema = record {
  name = "now";
  description = "";
  method = "GET";
  path = "/";
  parameters_schema = schema;
}

changed-SameTool_example :
    (hash codec (tool "ba") ≡ hash codec (tool "ab"))
    × (changed codec (hash codec (tool "ab")) (tool "ba") ≡ false)
changed-SameTool_example = changed-SameTool codec (tool "ab") (tool "ba") (record {
  others = refl;
  v = ab;
  w = ba;
  parsed_v = refl;
  parsed_w = refl;
  reordered = objects (swap (λ e. let test = (eq_iff "a" "b").1 e in cc));
})
