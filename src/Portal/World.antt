-- ===== src/Portal/World.antt =====
-- What app.js reads and writes: its `STATE`, the browser's local storage and location, the page's
-- elements, and the requests sent.
use the_black_hole.Prelude.{
  ℕ, String, List, [], ◌∷◌, Option, none, some, Bool, ◌===◌, if◌then◌else◌,
}
use the_black_hole.Portal.Types.{Connection, Endpoint, Log, ClientToken, Request}

-- The global `STATE`.
pub record State : Type 0 where
  pub token : String
  pub username : String
  pub connections : List Connection
  pub endpoints : List Endpoint
  pub logs : List Log
  pub tokens : List ClientToken

-- A child that was written as text (`innerText`), as markup (`innerHTML`), or appended as a
-- created element of the given inner markup.
pub data Node : Type 0 where
  text : String → Node
  html : String → Node
  row : String → Node

pub record Element : Type 0 where
  pub content : List Node
  pub value : String
  pub checked : Bool
  pub class_name : String
  pub hidden : Bool
  pub active : Bool
  pub href : String

abbrev pub Dom : Type 0
Dom = String → Option Element

-- The items of local storage that app.js uses; `none` is a missing item.
pub record Storage : Type 0 where
  pub token : Option String
  pub username : Option String
  pub theme : Option String

-- JavaScript's numbers, of which only the browser knows what they are, and how they print.
pub record Doubles : Type 0 where
  pub of_nat : ℕ → ℕ
  pub plus : ℕ → ℕ → ℕ
  pub minus : ℕ → ℕ → ℕ
  pub times : ℕ → ℕ → ℕ
  pub divide : ℕ → ℕ → ℕ
  pub text : ℕ → String

-- What the browser supplies: how it prints a time stamp (`new Date(s).toLocaleString()`), what
-- `URLSearchParams` finds in a query, the text that it shows for the children of an element, its
-- arithmetic in floating point, and the width of an element (`clientWidth`).
pub record Browser : Type 0 where
  pub locale_date : String → String
  pub query_param : (query name : String) → Option String
  pub inner_text : List Node → String
  pub doubles : Doubles
  pub client_width : (id : String) → ℕ

-- `sent` is the log of the requests, the last one first, and `held` has the token of the session at
-- each. `page` is the document as it is served, `dom` as it has become. `reloading` is set by
-- `window.location.reload()`: the page is about to be left. `announced` counts the `hashchange` events
-- that are not yet handled, and `listening` their listeners; `timers` counts the toasts that are not
-- yet hidden again.
pub record World : Type 0 where
  pub state : State
  pub storage : Storage
  pub hash : String
  pub announced : ℕ
  pub host : String
  pub protocol : String
  pub location : String
  pub listening : ℕ
  pub page : Dom
  pub dom : Dom
  pub sections : List String
  pub navs : List String
  pub sent : List Request
  pub held : List String
  pub timers : ℕ
  pub reloading : Bool
  pub browser : Browser
  pub light : Bool

abbrev pub put : String → Element → Dom → Dom
put id e dom j = if j === id then some e else dom j

-- A change of one element; a missing one is left missing.
abbrev pub change : String → (Element → Element) → Dom → Dom
change id f dom = elim (dom id) [ none ↦ dom | some e ↦ put id (f e) dom ]

abbrev pub change_all : List String → (Element → Element) → Dom → Dom
change_all [] f dom = dom
change_all (id ∷ ids) f dom = change_all ids f (change id f dom)

-- `form.reset()`: the fields of a form, of which a hidden one is none, become as in the page.
abbrev pub reset_fields : List String → Dom → Dom → Dom
reset_fields [] page dom = dom
reset_fields (id ∷ ids) page dom = reset_fields ids page (elim (page id) [
  | none ↦ dom
  | some e ↦ change id (λ d. record d { value = e.value; checked = e.checked }) dom
])
