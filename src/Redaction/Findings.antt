-- ===== src/Redaction/Findings.antt =====
-- The findings that are reported: they are sorted, and no hit is lost.
use the_black_hole.Prelude.{
  ℕ, ◌+◌, String, List, [], ◌∷◌, true, ◌≡◌, refl, ◌∙◌, if◌then◌else◌, if_cases, text_leb,
  text_leb_total, text_leb_trans, All, All-map, arith,
}
use the_black_hole.Json.{
  Value, null, flag, number, text, array, object, Items, nil, cons, Fields, end, field,
}
use the_black_hole.Redaction.{
  CompiledRule, Redactor, Counts, apply_rule, apply_rules, add_count, count_hits, insert_finding,
  findings_from_counts, redact_bytes, tally_findings, redact_value, redact_items, redact_fields,
  redact_map,
}

-- The sum of all counts.
abbrev pub total : Counts → ℕ
total [] = 0
total ((class, n) ∷ m) = n + total m

-- By class, in ascending order.
abbrev pub IsByClass : Counts → Type 0
IsByClass [] = Unit
IsByClass ((class, n) ∷ m) = All (λ e. text_leb class e.0 ≡ true) m × IsByClass m

-- The number of matches that rules mask, one rule after another.
unfoldable pub hits : List CompiledRule → String → ℕ
hits [] s = 0
hits (rule ∷ rules) s = (apply_rule s rule).1 + hits rules (apply_rule s rule).0

total-add_count : (class : String) (n : ℕ) (m : Counts) → total (add_count class n m) ≡ total m + n
unfolding add_count
total-add_count class n [] = omega arith
total-add_count class n ((key, k) ∷ m) = let rest = total-add_count class n m in ground arith

total-count_hits :
    (class : String) (n : ℕ) (m : Counts) → total (count_hits class n m) ≡ total m + n
unfolding count_hits
total-count_hits class n m = let counted = total-add_count class n m in ground arith

total-apply_rules :
    (rules : List CompiledRule) (s : String) (m : Counts)
    → total (apply_rules rules s m).1 ≡ total m + hits rules s
unfolding apply_rules hits
total-apply_rules [] s m = omega arith
total-apply_rules (rule ∷ rules) s m =
    let (s', n) = apply_rule s rule in
    omega (
      arith,
      total-apply_rules rules s' (count_hits rule.class n m),
      total-count_hits rule.class n m,
    )

total-insert_finding :
    (class : String) (n : ℕ) (m : Counts) → total (insert_finding (class, n) m) ≡ n + total m
unfolding insert_finding
total-insert_finding class n [] = refl
total-insert_finding class n ((key, k) ∷ m) =
    if_cases (λ c. total c ≡ n + total ((key, k) ∷ m)) (text_leb class key) _ _ (λ _. refl)
      λ _. omega (arith, total-insert_finding class n m)

total-findings_from_counts : (m : Counts) → total (findings_from_counts m) ≡ total m
unfolding findings_from_counts
total-findings_from_counts [] = refl
total-findings_from_counts ((class, n) ∷ m) =
    omega
      (arith, total-insert_finding class n (findings_from_counts m), total-findings_from_counts m)

All-insert_finding :
    (low class : String) (n : ℕ) (m : Counts)
    → text_leb low class ≡ true
    → All (λ e. text_leb low e.0 ≡ true) m
    → All (λ e. text_leb low e.0 ≡ true) (insert_finding (class, n) m)
unfolding insert_finding
All-insert_finding low class n [] h a = (h, tt)
All-insert_finding low class n ((key, k) ∷ m) h a =
    if_cases (All (λ e. text_leb low e.0 ≡ true)) (text_leb class key) _ _ (λ _. (h, a))
      (λ _. (a.0, All-insert_finding low class n m h a.1))

insert_finding-IsByClass :
    (class : String) (n : ℕ) (m : Counts) → IsByClass m → IsByClass (insert_finding (class, n) m)
unfolding insert_finding
insert_finding-IsByClass class n [] b = (tt, tt)
insert_finding-IsByClass class n ((key, k) ∷ m) b =
    if_cases IsByClass (text_leb class key) _ _
      (λ e. (
        (
          e,
          All-map (λ f. text_leb key f.0 ≡ true) (λ f. text_leb class f.0 ≡ true)
              (λ f h. text_leb_trans class key f.0 e h) m b.0,
        ),
        b,
      ))
      (λ e. (
        All-insert_finding key class n m (text_leb_total class key e) b.0,
        insert_finding-IsByClass class n m b.1,
      ))

findings_from_counts-IsByClass : (m : Counts) → IsByClass (findings_from_counts m)
unfolding findings_from_counts
findings_from_counts-IsByClass [] = tt
findings_from_counts-IsByClass ((class, n) ∷ m) =
    insert_finding-IsByClass class n (findings_from_counts m) (findings_from_counts-IsByClass m)

total-tally_findings : (fs m : Counts) → total (tally_findings fs m) ≡ total m + total fs
unfolding tally_findings
total-tally_findings [] m = omega arith
total-tally_findings ((class, n) ∷ fs) m =
    omega (arith, total-tally_findings fs (add_count class n m), total-add_count class n m)

-- The number of matches that a redactor masks in a text, and in all texts of a value.
unfoldable pub text_hits : Redactor → String → ℕ
text_hits r s = if r.enabled then hits r.rules s else 0

unfoldable mutual
  unfolding text_hits

  pub value_hits : Redactor → Value → ℕ
  value_hits r null = 0
  value_hits r (flag b) = 0
  value_hits r (number n) = 0
  value_hits r (text s) = text_hits r s
  value_hits r (array xs) = items_hits r xs
  value_hits r (object fs) = fields_hits r fs

  pub items_hits : Redactor → Items → ℕ
  items_hits r nil = 0
  items_hits r (cons v xs) = value_hits r v + items_hits r xs

  pub fields_hits : Redactor → Fields → ℕ
  fields_hits r end = 0
  fields_hits r (field key v fs) = value_hits r v + fields_hits r fs

total-redact_bytes : (r : Redactor) (s : String) → total (redact_bytes r s).1 ≡ text_hits r s
unfolding redact_bytes text_hits
total-redact_bytes r s =
    let all = total-findings_from_counts (apply_rules r.rules s []).1 in
    let some_hits = total-apply_rules r.rules s [] in ground arith

mutual
  unfolding redact_value value_hits

  total-redact_value :
      (r : Redactor) (v : Value) (m : Counts)
      → total (redact_value r v m).1 ≡ total m + value_hits r v
  total-redact_value r null m = omega arith
  total-redact_value r (flag b) m = omega arith
  total-redact_value r (number n) m = omega arith
  total-redact_value r (text s) m =
      omega (arith, total-tally_findings (redact_bytes r s).1 m, total-redact_bytes r s)
  total-redact_value r (array xs) m = total-redact_items r xs m
  total-redact_value r (object fs) m = total-redact_fields r fs m

  total-redact_items :
      (r : Redactor) (xs : Items) (m : Counts)
      → total (redact_items r xs m).1 ≡ total m + items_hits r xs
  total-redact_items r nil m = omega arith
  total-redact_items r (cons v xs) m =
      omega (arith, total-redact_value r v m, total-redact_items r xs (redact_value r v m).1)

  total-redact_fields :
      (r : Redactor) (fs : Fields) (m : Counts)
      → total (redact_fields r fs m).1 ≡ total m + fields_hits r fs
  total-redact_fields r end m = omega arith
  total-redact_fields r (field key v fs) m =
      omega (arith, total-redact_value r v m, total-redact_fields r fs (redact_value r v m).1)

-- The findings for the arguments of a call are in ascending order of their classes, and their counts
-- add up to the number of matches that were masked in all texts of the arguments, at any depth.
pub redact_map_findings :
    (r : Redactor) (fs : Fields)
    → IsByClass (redact_map r fs).1 × (total (redact_map r fs).1 ≡ fields_hits r fs)
unfolding redact_map
redact_map_findings r fs = (
  findings_from_counts-IsByClass (redact_fields r fs []).1,
  total-findings_from_counts (redact_fields r fs []).1 ∙ total-redact_fields r fs [] ∙ omega arith,
)
