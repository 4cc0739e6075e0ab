-- ===== src/Redaction/Walk.antt =====
-- The walk of `redactValue` over a JSON value.
use the_black_hole.Prelude.{[], ◌≡◌, refl, ap, ◌∙◌}
use the_black_hole.Json.{
  Value, null, flag, number, text, array, object, Items, nil, cons, Fields, end, field,
}
use the_black_hole.Redaction.{
  Redactor, Counts, redact_value, redact_items, redact_fields, redact_map,
}

-- A value without its texts.
unfoldable mutual
  pub shape : Value → Value
  shape null = null
  shape (flag b) = flag b
  shape (number n) = number n
  shape (text s) = text ""
  shape (array xs) = array (shape_items xs)
  shape (object fs) = object (shape_fields fs)

  pub shape_items : Items → Items
  shape_items nil = nil
  shape_items (cons v xs) = cons (shape v) (shape_items xs)

  pub shape_fields : Fields → Fields
  shape_fields end = end
  shape_fields (field key v fs) = field key (shape v) (shape_fields fs)

mutual
  unfolding shape redact_value

  shape-redact_value :
      (r : Redactor) (v : Value) (m : Counts) → shape (redact_value r v m).0 ≡ shape v
  shape-redact_value r null m = refl
  shape-redact_value r (flag b) m = refl
  shape-redact_value r (number n) m = refl
  shape-redact_value r (text s) m = refl
  shape-redact_value r (array xs) m = ap array (shape-redact_items r xs m)
  shape-redact_value r (object fs) m = ap object (shape-redact_fields r fs m)

  shape-redact_items :
      (r : Redactor) (xs : Items) (m : Counts)
      → shape_items (redact_items r xs m).0 ≡ shape_items xs
  shape-redact_items r nil m = refl
  shape-redact_items r (cons v xs) m =
      ap (λ w. cons w (shape_items (redact_items r xs (redact_value r v m).1).0))
        (shape-redact_value r v m)
      ∙ ap (cons (shape v)) (shape-redact_items r xs (redact_value r v m).1)

  shape-redact_fields :
      (r : Redactor) (fs : Fields) (m : Counts)
      → shape_fields (redact_fields r fs m).0 ≡ shape_fields fs
  shape-redact_fields r end m = refl
  shape-redact_fields r (field key v fs) m =
      ap (λ w. field key w (shape_fields (redact_fields r fs (redact_value r v m).1).0))
        (shape-redact_value r v m)
      ∙ ap (field key (shape v)) (shape-redact_fields r fs (redact_value r v m).1)

-- The redaction of a call's arguments keeps their keys, their nesting and everything that is no text.
pub shape-redact_map :
    (r : Redactor) (fs : Fields) → shape (object (redact_map r fs).0) ≡ shape (object fs)
unfolding redact_map shape
shape-redact_map r fs = ap object (shape-redact_fields r fs [])
