-- ===== src/Portal/Search.antt =====
-- The search of the documentation view: the handler of `docs-search-input`.
use the_black_hole.Prelude.{
  String, List, [], ◌∷◌, Option, none, some, Bool, not, ◌||◌, is_set, if◌then◌else◌, includes, ◌≡◌,
  refl, ap, map,
}
use the_black_hole.Portal.Router.{trim}

-- An element of the class `docs-section`: the `innerText` of its heading and of all of it, its
-- `data-keywords` where it has them, and whether it has the class `hidden`.
pub record DocsSection : Type 0 where
  pub title : String
  pub text : String
  pub keywords : Option String
  pub hidden : Bool

-- `section.dataset.keywords ? section.dataset.keywords.toLowerCase() : ''`
unfoldable pub lower_keywords : (to_lower : String → String) → Option String → String
lower_keywords to_lower none = ""
lower_keywords to_lower (some s) = if is_set s then to_lower s else ""

-- Does a section show for a query?
unfoldable pub matches_query : (to_lower : String → String) → (query : String) → DocsSection → Bool
unfolding lower_keywords
matches_query to_lower query section =
    includes (to_lower section.title) query
    || includes (to_lower section.text) query
    || includes (lower_keywords to_lower section.keywords) query

unfoldable pub filter_section :
    (to_lower : String → String) → (query : String) → DocsSection → DocsSection
unfolding matches_query
filter_section to_lower query section = record section {
  hidden = not (matches_query to_lower query section);
}

-- `searchInput.oninput`; `to_lower` is `toLowerCase`.
unfoldable pub search_docs :
    (to_lower : String → String) → (value : String) → List DocsSection → List DocsSection
unfolding filter_section trim
search_docs to_lower value sections = map (filter_section to_lower (trim (to_lower value))) sections

-- What a search shows depends on its own input only: it undoes what searches before it have hidden.
search_docs-search_docs :
    (to_lower : String → String) (value earlier : String) (sections : List DocsSection)
    → search_docs to_lower value (search_docs to_lower earlier sections)
      ≡ search_docs to_lower value sections
unfolding search_docs
search_docs-search_docs to_lower value earlier [] = refl
search_docs-search_docs to_lower value earlier (s ∷ ss) =
    ap (◌∷◌ (filter_section to_lower (trim (to_lower value)) s))
      (search_docs-search_docs to_lower value earlier ss)
