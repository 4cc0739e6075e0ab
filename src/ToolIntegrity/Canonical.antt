-- ===== src/ToolIntegrity/Canonical.antt =====
-- The hash does not depend on the order in which a schema's objects list their keys, and a change that
-- it misses is a collision.
use the_black_hole.Prelude.{
  String, List, [], ◌∷◌, some, false, ◌≡◌, ◌≢◌, refl, sym, ap, ◌∙◌, ◌⊎◌, inl, inr, ◌===◌, ◌<>◌,
  eq_iff, join, Bool-cases, text_leb_total, text_leb_trans, text_leb_antisymm, arith,
}
use the_black_hole.Json.{Value, array, object, Items, nil, cons, Fields, end, field}
use the_black_hole.ToolIntegrity.{
  Codec, ToolDef, insert_key, sort_keys, write_entries, write_canonical, write_items, write_fields,
  canonical_of, canonicalize_schema, canonical_form, hash, changed,
}

-- Two values with the same content, where the keys of objects at any depth may stand in another order.
mutual
  pub data Reordered : Value → Value → Type 0 where
    same : (v : Value) → Reordered v v
    arrays : {xs ys : Items} → ReorderedItems xs ys → Reordered (array xs) (array ys)
    objects : {fs gs : Fields} → ReorderedFields fs gs → Reordered (object fs) (object gs)

  pub data ReorderedItems : Items → Items → Type 0 where
    no_items : ReorderedItems nil nil
    both :
        {v w : Value} {xs ys : Items}
        → Reordered v w
        → ReorderedItems xs ys
        → ReorderedItems (cons v xs) (cons w ys)

  pub data ReorderedFields : Fields → Fields → Type 0 where
    no_fields : ReorderedFields end end
    keep :
        {key : String} {v w : Value} {fs gs : Fields}
        → Reordered v w
        → ReorderedFields fs gs
        → ReorderedFields (field key v fs) (field key w gs)
    swap :
        {k l : String} {v w : Value} {fs : Fields}
        → k ≢ l
        → ReorderedFields (field k v (field l w fs)) (field l w (field k v fs))
    trans :
        {fs gs hs : Fields} → ReorderedFields fs gs → ReorderedFields gs hs → ReorderedFields fs hs

insert_key_comm :
    (k l s t : String) (m : List (String × String))
    → k ≢ l
    → insert_key k s (insert_key l t m) ≡ insert_key l t (insert_key k s m)
unfolding insert_key
insert_key_comm k l s t [] n = ground (arith, text_leb_total k l, text_leb_antisymm k l)
insert_key_comm k l s t ((x, u) ∷ m) n = ground (
  arith,
  insert_key_comm k l s t m n,
  text_leb_total k l,
  text_leb_antisymm k l,
  text_leb_total k x,
  text_leb_total l x,
  text_leb_trans k l x,
  text_leb_trans l k x,
  text_leb_trans k x l,
  text_leb_trans l x k,
)

-- What is written for the fields of reordered objects is the same, once it is sorted.
mutual
  unfolding write_canonical sort_keys

  write_canonical-Reordered :
      (c : Codec) (v w : Value) → Reordered v w → write_canonical c v ≡ write_canonical c w
  write_canonical-Reordered c v w (same _) = refl
  write_canonical-Reordered c v w (arrays {xs} {ys} h) =
      ap (λ ss. "[" <> join "," ss <> "]") (write_items-Reordered c xs ys h)
  write_canonical-Reordered c v w (objects {fs} {gs} h) =
      ap (λ m. "{" <> join "," (write_entries c m) <> "}") (write_fields-Reordered c fs gs h)

  write_items-Reordered :
      (c : Codec) (xs ys : Items) → ReorderedItems xs ys → write_items c xs ≡ write_items c ys
  write_items-Reordered c _ _ no_items = refl
  write_items-Reordered c _ _ (both {v} {w} {xs} {ys} h hs) =
      ap (λ s. s ∷ write_items c xs) (write_canonical-Reordered c v w h)
      ∙ ap (λ ss. write_canonical c w ∷ ss) (write_items-Reordered c xs ys hs)

  write_fields-Reordered :
      (c : Codec) (fs gs : Fields)
      → ReorderedFields fs gs
      → sort_keys (write_fields c fs) ≡ sort_keys (write_fields c gs)
  write_fields-Reordered c _ _ no_fields = refl
  write_fields-Reordered c _ _ (keep {key} {v} {w} {fs} {gs} h hs) =
      ap (λ s. insert_key key s (sort_keys (write_fields c fs))) (write_canonical-Reordered c v w h)
      ∙ ap (insert_key key (write_canonical c w)) (write_fields-Reordered c fs gs hs)
  write_fields-Reordered c _ _ (swap {k} {l} {v} {w} {fs} n) =
      insert_key_comm k l (write_canonical c v) (write_canonical c w)
        (sort_keys (write_fields c fs)) n
  write_fields-Reordered c _ _ (trans {fs} {gs} {hs} p q) =
      write_fields-Reordered c fs gs p ∙ write_fields-Reordered c gs hs q

-- Two definitions that agree in all but the order of keys in their schemas.
pub record SameTool (c : Codec) (d e : ToolDef) : Type 0 where
  pub others : record d { parameters_schema = e.parameters_schema } ≡ e
  pub v : Value
  pub w : Value
  pub parsed_v : c.parse d.parameters_schema ≡ some v
  pub parsed_w : c.parse e.parameters_schema ≡ some w
  pub reordered : Reordered v w

canonicalize_schema-Reordered :
    (c : Codec) (s t : String) (v w : Value)
    → c.parse s ≡ some v
    → c.parse t ≡ some w
    → Reordered v w
    → canonicalize_schema c s ≡ canonicalize_schema c t
unfolding canonicalize_schema canonical_of
canonicalize_schema-Reordered c s t v w p q h =
    ap (canonical_of c s) p ∙ write_canonical-Reordered c v w h ∙ sym (ap (canonical_of c t) q)

abbrev with_schema : String → ToolDef → ToolDef
with_schema s d = record d { parameters_schema = s }

canonical_form-SameTool :
    (c : Codec) (d e : ToolDef) → SameTool c d e → canonical_form c e ≡ canonical_form c d
unfolding canonical_form
canonical_form-SameTool c d e t =
    ap (with_schema (canonicalize_schema c e.parameters_schema)) (sym t.others)
    ∙ ap (λ s. with_schema s d)
        (sym (
          canonicalize_schema-Reordered c d.parameters_schema e.parameters_schema t.v t.w t.parsed_v
            t.parsed_w t.reordered))

changed_same :
    (c : Codec) (prior : String) (e : ToolDef) → hash c e ≡ prior → changed c prior e ≡ false
unfolding changed
changed_same c prior e h = let equal = eq_iff (hash c e) prior in ground arith

unchanged_same :
    (c : Codec) (prior : String) (e : ToolDef)
    → prior ≢ ""
    → changed c prior e ≡ false
    → hash c e ≡ prior
unfolding changed
unchanged_same c prior e n h =
    let equal = eq_iff (hash c e) prior in let empty = eq_iff prior "" in ground arith

-- A tool whose schema lists its keys in another order, at any depth, has the same hash, and pinning does
-- not take it for changed.
pub changed-SameTool :
    (c : Codec) (d e : ToolDef)
    → SameTool c d e
    → (hash c e ≡ hash c d) × (changed c (hash c d) e ≡ false)
unfolding hash
changed-SameTool c d e t =
    let equal = ap (λ f. c.digest (c.marshal f)) (canonical_form-SameTool c d e t) in
    (equal, changed_same c (hash c d) e equal)

-- Where a tool with a recorded hash counts as unchanged, what is hashed for it is what was hashed then, or
-- two different texts are found that have one digest.
pub unchanged-canonical_form :
    (c : Codec) (d e : ToolDef)
    → hash c d ≢ ""
    → changed c (hash c d) e ≡ false
    → (c.marshal (canonical_form c e) ≡ c.marshal (canonical_form c d))
      ⊎ ((s : String) × (t : String) × (s ≢ t) × (c.digest s ≡ c.digest t))
unfolding hash
unchanged-canonical_form c d e n h =
    let s = c.marshal (canonical_form c e) in
    let t = c.marshal (canonical_form c d) in
    let equal = unchanged_same c (hash c d) e n h in
    elim (Bool-cases (s === t)) [
      | inl agree ↦ inl ((eq_iff s t).0 agree)
      | inr differ ↦ inr (s, t, (λ p. let y = (eq_iff s t).1 p in cc), equal)
    ]
