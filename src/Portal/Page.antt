-- ===== src/Portal/Page.antt =====
-- The operations on the page that app.js is written with, as tasks.
pub mod Tables
use the_black_hole.Prelude.{
  String, List, [], ◌∷◌, ◌++◌, none, some, Bool, true, false, leb, ◌&&◌, ◌+◌, ◌<>◌,
}
use the_black_hole.Portal.Types.{Reply, Body, response, rejected, get, nothing}
use the_black_hole.Portal.World.{State, Element, Node, change, reset_fields}
use the_black_hole.Portal.Task.{Task, done, throw, modify, read, fetch, ◌>>◌}

module _ {J : Type 0} where
  -- A property of `document.getElementById(id)` is assigned; on `null` that throws.
  unfoldable pub on_element : String → (Element → Element) → Task J (Unit {0})
  on_element id f = read λ w. elim (w.dom id) [
    | none ↦ throw "Cannot set properties of null"
    | some _ ↦ modify (λ v. record v { dom = change id f v.dom }) (done tt)
  ]

  unfoldable pub set_text : String → String → Task J (Unit {0})
  set_text id s = on_element id (λ e. record e { content = Node.text s ∷ [] })

  unfoldable pub set_html : String → String → Task J (Unit {0})
  set_html id s = on_element id (λ e. record e { content = Node.html s ∷ [] })

  -- `el.innerHTML = ''`
  unfoldable pub clear : String → Task J (Unit {0})
  clear id = on_element id (λ e. record e { content = [] })

  -- `el.appendChild(child)`, where `child.innerHTML` is `s`.
  unfoldable pub append : String → String → Task J (Unit {0})
  append id s = on_element id (λ e. record e { content = e.content ++ Node.row s ∷ [] })

  unfoldable pub append_all : String → List String → Task J (Unit {0})
  append_all id [] = done tt
  append_all id (s ∷ ss) = append id s >> append_all id ss

  -- `classList.add('hidden')` and `classList.remove('hidden')`
  unfoldable pub hide : String → Task J (Unit {0})
  hide id = on_element id (λ e. record e { hidden = true })

  unfoldable pub show : String → Task J (Unit {0})
  show id = on_element id (λ e. record e { hidden = false })

  -- `showToast`; the timer that hides the toast again is counted.
  unfoldable pub show_toast : (message kind : String) → Task J (Unit {0})
  show_toast message kind = do
    set_text "toast" message
    on_element "toast"
        (λ e. record e { class_name = "toast " <> kind; hidden = false; active = false })
    show "toast"
    modify (λ w. record w { timers = w.timers + 1 }) (done tt)

  unfoldable pub set_value : String → String → Task J (Unit {0})
  set_value id s = on_element id (λ e. record e { value = s })

  unfoldable pub set_checked : String → Bool → Task J (Unit {0})
  set_checked id b = on_element id (λ e. record e { checked = b })

  -- `document.getElementById(form).reset()`, with the fields that the form has in index.html
  unfoldable pub reset_form : String → List String → Task J (Unit {0})
  reset_form form fields = read λ w. elim (w.dom form) [
    | none ↦ throw "Cannot read properties of null"
    | some _ ↦ modify (λ v. record v { dom = reset_fields fields v.page v.dom }) (done tt)
  ]

  -- `const el = document.getElementById(id); if (el) f(el)`
  unfoldable pub if_present : String → Task J (Unit {0}) → Task J (Unit {0})
  if_present id t = read λ w. elim (w.dom id) [ none ↦ done tt | some _ ↦ t ]

  unfoldable pub set_state : (State → State) → Task J (Unit {0})
  set_state f = modify (λ w. record w { state = f w.state }) (done tt)

  -- `fetch(url, { headers: getHeaders() })`: the token is read when the request is made.
  unfoldable pub fetch_get : String → (Reply → Task J (Unit {0})) → Task J (Unit {0})
  fetch_get url k = read λ w.
      fetch (record { verb = get; url = url; bearer = some w.state.token; payload = nothing }) k

  -- `const res = await fetch(...)`, which throws if the request fails; then `res.ok` and the body.
  unfoldable pub received : Reply → (Bool → Body → Task J (Unit {0})) → Task J (Unit {0})
  received (rejected message) k = throw message
  received (response status body) k = k (leb 200 status && leb status 299) body

  -- `const v = document.getElementById(id).value`
  unfoldable pub with_value : String → (String → Task J (Unit {0})) → Task J (Unit {0})
  with_value id k =
      read
        λ w. elim (w.dom id) [ none ↦ throw "Cannot read properties of null" | some e ↦ k e.value ]

  unfoldable pub with_checked : String → (Bool → Task J (Unit {0})) → Task J (Unit {0})
  with_checked id k =
      read λ w. elim (w.dom id) [
        | none ↦ throw "Cannot read properties of null"
        | some e ↦ k e.checked
      ]

  -- `const s = document.getElementById(id).innerText`
  unfoldable pub with_inner_text : String → (String → Task J (Unit {0})) → Task J (Unit {0})
  with_inner_text id k = read λ w. elim (w.dom id) [
    | none ↦ throw "Cannot read properties of null"
    | some e ↦ k (w.browser.inner_text e.content)
  ]
