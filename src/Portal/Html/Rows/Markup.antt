-- ===== src/Portal/Html/Rows/Markup.antt =====
-- The rows as markup: which data can add a tag or a quote to them.
use Prim.Native.String.{String, [], ◌∷◌}
use the_black_hole.Prelude.{
  occurrences, occurrences-<>, ℕ, ◌+◌, ◌*◌, ◌≡◌, ◌≢◌, refl, Char, code, ◌===◌, if◌then◌else◌, arith,
  if_cases, decimal, Bool, is_set,
}
use the_black_hole.Portal.Types.{ClientToken, Log, Endpoint}
use the_black_hole.Portal.Html.{escape_html}
use the_black_hole.Portal.Html.Escape.{AllChars, IsInert, escape_html-IsInert}
use the_black_hole.Portal.Html.Rows.{
  vault_row, token_row, error_snippet, log_row, raw_name, endpoint_row,
}

occurrences_none : (n : ℕ) (s : String) → AllChars (λ c. code c ≢ n) s → occurrences n s ≡ 0
occurrences_none n [] h = refl
occurrences_none n (c ∷ s) h = let rest = occurrences_none n s h.1 in let here = h.0 in ground arith

AllChars-map :
    (P Q : Char → Type 0) → ((c : Char) → P c → Q c) → (s : String) → AllChars P s → AllChars Q s
AllChars-map P Q f [] h = tt
AllChars-map P Q f (c ∷ s) h = (f c h.0, AllChars-map P Q f s h.1)

-- The opening angle bracket, the quotation mark and the apostrophe do not occur in escaped text.
pub open_escaped : (s : String) → occurrences b'<' (escape_html s) ≡ 0
open_escaped s =
    occurrences_none _ _ (AllChars-map IsInert _ (λ c i. i.0) _ (escape_html-IsInert s))

pub quote_escaped : (s : String) → occurrences b'"' (escape_html s) ≡ 0
quote_escaped s =
    occurrences_none _ _ (AllChars-map IsInert _ (λ c i. i.2) _ (escape_html-IsInert s))

apostrophe_escaped : (s : String) → occurrences b'\'' (escape_html s) ≡ 0
apostrophe_escaped s =
    occurrences_none _ _ (AllChars-map IsInert _ (λ c i. i.3) _ (escape_html-IsInert s))

-- A choice between two texts with as many occurrences of a character.
chosen :
    (n k : ℕ) (b : Bool) (s t : String)
    → occurrences n s ≡ k
    → occurrences n t ≡ k
    → occurrences n (if b then s else t) ≡ k
chosen n k b s t hs ht = if_cases (λ u. occurrences n u ≡ k) b s t (λ _. hs) (λ _. ht)

-- Whatever a client token holds, its row has as many tags, quotation marks and apostrophes as the
-- template has: no field adds one.
pub token_row_markup :
    (t : ClientToken)
    → (occurrences b'<' (token_row t) ≡ 24)
      × (occurrences b'"' (token_row t) ≡ 10)
      × (occurrences b'\'' (token_row t) ≡ 2)
unfolding token_row
token_row_markup t = (
  simp (
    occurrences-<>,
    open_escaped,
    chosen b'<' 0 (t.client_role === "admin") "" "badge-disabled" refl refl,
    chosen b'<' 0 t.enabled "active" "disabled" refl refl,
    chosen b'<' 0 t.enabled "Active" "Disabled" refl refl,
  ),
  simp (
    occurrences-<>,
    quote_escaped,
    chosen b'"' 0 (t.client_role === "admin") "" "badge-disabled" refl refl,
    chosen b'"' 0 t.enabled "active" "disabled" refl refl,
    chosen b'"' 0 t.enabled "Active" "Disabled" refl refl,
  ),
  simp (
    occurrences-<>,
    apostrophe_escaped,
    chosen b'\'' 0 (t.client_role === "admin") "" "badge-disabled" refl refl,
    chosen b'\'' 0 t.enabled "active" "disabled" refl refl,
    chosen b'\'' 0 t.enabled "Active" "Disabled" refl refl,
  ),
)

-- Whatever the name of a secret is, its row has the tags, quotation marks and apostrophes of the
-- template.
pub vault_row_markup :
    (key : String)
    → (occurrences b'<' (vault_row key) ≡ 8)
      × (occurrences b'"' (vault_row key) ≡ 4)
      × (occurrences b'\'' (vault_row key) ≡ 0)
unfolding vault_row
vault_row_markup key = (
  simp (occurrences-<>, open_escaped),
  simp (occurrences-<>, quote_escaped),
  simp (occurrences-<>, apostrophe_escaped),
)

open_error_snippet : (s : String) → occurrences b'<' (error_snippet s) ≡ 2
unfolding error_snippet
open_error_snippet s = chosen b'<' 2 (is_set s) _ _ (simp (occurrences-<>, open_escaped)) refl

-- The row of an audit entry has the tags of the template, and besides them those that the printed
-- time stamp, the status and the duration have: the other fields add none.
pub log_row_markup :
    (locale_date : String → String) (log : Log)
    → occurrences b'<' (log_row locale_date log)
      ≡ 22
        + occurrences b'<' (locale_date log.timestamp)
        + occurrences b'<' log.status
        + occurrences b'<' (decimal log.duration_ms)
unfolding log_row
log_row_markup locale_date log =
    simp
      (
        occurrences-<>,
        open_escaped,
        open_error_snippet,
        chosen b'<' 0 (log.status === "success") "badge-status active" "badge-status disabled" refl
            refl,
      )
      (omega arith)

open_raw_name :
    (prefix name : String)
    → occurrences b'<' (raw_name prefix name) ≡ (if is_set prefix then 3 else 0)
unfolding raw_name
open_raw_name [] name = refl
open_raw_name (c ∷ p) name = simp (occurrences-<>, open_escaped)

-- The row of an endpoint has the tags of the template, three more where its connection has a prefix
-- of tool names, and twice those that the endpoint's id has: the other fields add none.
pub endpoint_row_markup :
    (prefix name : String) (ep : Endpoint)
    → occurrences b'<' (endpoint_row prefix name ep)
      ≡ 26 + (if is_set prefix then 3 else 0) + 2 * occurrences b'<' ep.id
unfolding endpoint_row
endpoint_row_markup prefix name ep =
    simp (occurrences-<>, open_escaped, open_raw_name) (omega arith)
