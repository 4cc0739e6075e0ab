-- ===== src/Portal/Keeps/Page.antt =====
-- The rules for the operations on the page, for an invariant that the page does not touch.
use the_black_hole.Prelude.{ℕ, String, List, [], ◌∷◌, some, Bool}
use the_black_hole.Portal.Types.{
  Connection, Endpoint, Log, ClientToken, Request, Reply, Body, response, rejected, get, nothing,
}
use the_black_hole.Portal.World.{World, State, Element, Dom, change, reset_fields}
use the_black_hole.Portal.Task.{Task, done, modify}
use the_black_hole.Portal.Page.{
  on_element, set_text, set_html, clear, append, append_all, hide, show, show_toast, set_value,
  set_checked, reset_form, if_present, set_state, fetch_get, received, with_value, with_checked,
  with_inner_text,
}
use the_black_hole.Portal.Keeps.{
  Keeps, Keeps-done, Keeps-throw, Keeps-read, Keeps-modify, Keeps-fetch, Keeps-bind, Keeps-option,
  keeps_core,
}

-- What the operations of the loaders need: the invariant does not speak of the page, of timers or
-- of the lists in `STATE`, and the requests of the loaders are good ones.
pub record Closed (I : World → Type 0) (R : World → Request → Type 0) : Type 0 where
  pub on_dom : (w : World) (d : Dom) → I w → I (record w { dom = d })
  pub on_timers : (w : World) (n : ℕ) → I w → I (record w { timers = n })
  pub on_lists :
      (w : World) (cs : List Connection) (es : List Endpoint) (ls : List Log)
      (ts : List ClientToken)
      → I w
      → I (record w {
        state = record (w.state) { connections = cs; endpoints = es; logs = ls; tokens = ts };
      })
  pub on_get :
      (w : World) (url : String)
      → R w (record { verb = get; url = url; bearer = some w.state.token; payload = nothing })

module _ {I : World → Type 0} {R : World → Request → Type 0} (c : Closed I R) {J : Type 0} where
  -- A change of the page.
  Keeps-on_dom :
      (f : Dom → World → Dom) (w : World)
      → Keeps I R {J = J} (modify (λ v. record v { dom = f v.dom v }) (done tt)) w
  Keeps-on_dom f w = Keeps-modify _ _ w (λ v i. c.on_dom v _ i) (Keeps-done tt)

  pub Keeps-on_element :
      (id : String) (f : Element → Element) (w : World) → Keeps I R (on_element {J = J} id f) w
  unfolding on_element
  Keeps-on_element id f w =
      Keeps-read _ w (
        Keeps-option (w.dom id) _ _ w (Keeps-throw _ w)
          (λ e. Keeps-on_dom (λ d _. change id f d) w))

  pub Keeps-set_text : (id s : String) (w : World) → Keeps I R (set_text {J = J} id s) w
  unfolding set_text
  Keeps-set_text id s = Keeps-on_element id _

  pub Keeps-set_html : (id s : String) (w : World) → Keeps I R (set_html {J = J} id s) w
  unfolding set_html
  Keeps-set_html id s = Keeps-on_element id _

  pub Keeps-clear : (id : String) (w : World) → Keeps I R (clear {J = J} id) w
  unfolding clear
  Keeps-clear id = Keeps-on_element id _

  pub Keeps-append : (id s : String) (w : World) → Keeps I R (append {J = J} id s) w
  unfolding append
  Keeps-append id s = Keeps-on_element id _

  pub Keeps-hide : (id : String) (w : World) → Keeps I R (hide {J = J} id) w
  unfolding hide
  Keeps-hide id = Keeps-on_element id _

  pub Keeps-show : (id : String) (w : World) → Keeps I R (show {J = J} id) w
  unfolding show
  Keeps-show id = Keeps-on_element id _

  pub Keeps-set_value : (id s : String) (w : World) → Keeps I R (set_value {J = J} id s) w
  unfolding set_value
  Keeps-set_value id s = Keeps-on_element id _

  pub Keeps-set_checked :
      (id : String) (b : Bool) (w : World) → Keeps I R (set_checked {J = J} id b) w
  unfolding set_checked
  Keeps-set_checked id b = Keeps-on_element id _

  pub Keeps-append_all :
      (id : String) (ss : List String) (w : World) → Keeps I R (append_all {J = J} id ss) w
  unfolding append_all
  Keeps-append_all id [] = Keeps-done tt
  Keeps-append_all id (s ∷ ss) = λ w.
      Keeps-bind (append id s) (λ _. append_all id ss) w (Keeps-append id s w)
        (λ _. Keeps-append_all id ss)

  pub Keeps-show_toast :
      (message kind : String) (w : World) → Keeps I R (show_toast {J = J} message kind) w
  unfolding show_toast
  Keeps-show_toast message kind w =
      search
        (
          Keeps-bind, Keeps-set_text, Keeps-on_element, Keeps-show, Keeps-modify, Keeps-done,
          c.on_timers,
        )
        depth 12

  pub Keeps-reset_form :
      (form : String) (fields : List String) (w : World)
      → Keeps I R (reset_form {J = J} form fields) w
  unfolding reset_form
  Keeps-reset_form form fields w = Keeps-read _ w (
      Keeps-option (w.dom form) _ _ w (Keeps-throw _ w)
        (λ e. Keeps-on_dom (λ d v. reset_fields fields v.page d) w))

  pub Keeps-if_present :
      (id : String) (t : Task J (Unit {0})) (w : World)
      → Keeps I R t w
      → Keeps I R (if_present id t) w
  unfolding if_present
  Keeps-if_present id t w h =
      Keeps-read _ w (Keeps-option (w.dom id) _ (λ _. t) w (Keeps-done tt w) (λ _. h))

  pub Keeps-with_value :
      (id : String) (k : String → Task J (Unit {0})) (w : World)
      → ((s : String) → Keeps I R (k s) w)
      → Keeps I R (with_value id k) w
  unfolding with_value
  Keeps-with_value id k w h =
      Keeps-read _ w
        (Keeps-option (w.dom id) _ (λ e. k e.value) w (Keeps-throw _ w) (λ e. h e.value))

  pub Keeps-with_checked :
      (id : String) (k : Bool → Task J (Unit {0})) (w : World)
      → ((b : Bool) → Keeps I R (k b) w)
      → Keeps I R (with_checked id k) w
  unfolding with_checked
  Keeps-with_checked id k w h =
      Keeps-read _ w
        (Keeps-option (w.dom id) _ (λ e. k e.checked) w (Keeps-throw _ w) (λ e. h e.checked))

  pub Keeps-with_inner_text :
      (id : String) (k : String → Task J (Unit {0})) (w : World)
      → ((s : String) → Keeps I R (k s) w)
      → Keeps I R (with_inner_text id k) w
  unfolding with_inner_text
  Keeps-with_inner_text id k w h = Keeps-read _ w (
      Keeps-option (w.dom id) _ (λ e. k (w.browser.inner_text e.content)) w (Keeps-throw _ w)
        (λ e. h (w.browser.inner_text e.content)))

  pub Keeps-received :
      (r : Reply) (k : Bool → Body → Task J (Unit {0})) (w : World)
      → ((b : Bool) (body : Body) → Keeps I R (k b body) w)
      → Keeps I R (received r k) w
  unfolding received
  Keeps-received (rejected message) k w h = Keeps-throw message w
  Keeps-received (response status body) k w h = h _ body

  pub Keeps-fetch_get :
      (url : String) (k : Reply → Task J (Unit {0})) (w : World)
      → ((r : Reply) (v : World) → Keeps I R (k r) v)
      → Keeps I R (fetch_get url k) w
  unfolding fetch_get
  Keeps-fetch_get url k w h = Keeps-read _ w (Keeps-fetch _ k w (c.on_get w url) h)

  pub Keeps-set_state :
      (f : State → State) (w : World)
      → ((v : World) → I v → I (record v { state = f v.state }))
      → Keeps I R (set_state {J = J} f) w
  unfolding set_state
  Keeps-set_state f w h = Keeps-modify _ _ w h (Keeps-done tt)

pub ruleset keeps_page = (
  keeps_core, Keeps-set_text, Keeps-set_html, Keeps-clear, Keeps-append_all, Keeps-hide, Keeps-show,
  Keeps-set_value, Keeps-set_checked, Keeps-show_toast, Keeps-reset_form, Keeps-if_present,
  Keeps-with_value, Keeps-with_checked, Keeps-with_inner_text, Keeps-received, Keeps-fetch_get,
  Keeps-on_element,
)
