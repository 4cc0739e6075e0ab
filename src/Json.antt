-- ===== src/Json.antt =====
-- JSON values as Go decodes them into `interface{}`: what encoding/json gives, and what the packages
-- pkg/mcp, pkg/redaction and pkg/toolintegrity walk over.
use the_black_hole.Prelude.{String, Bool, Option, none, some, ◌===◌, if◌then◌else◌}

-- A number is the text that it prints as: no code here computes with it. The fields of an object are
-- a Go map: its keys are distinct, and their order says nothing.
mutual
  pub data Value : Type 0 where
    null : Value
    flag : Bool → Value
    number : String → Value
    text : String → Value
    array : Items → Value
    object : Fields → Value

  pub data Items : Type 0 where
    nil : Items
    cons : Value → Items → Items

  pub data Fields : Type 0 where
    end : Fields
    field : String → Value → Fields → Fields

-- `m[key]`
abbrev pub lookup : String → Fields → Option Value
lookup key end = none
lookup key (field k v fs) = if k === key then some v else lookup key fs
