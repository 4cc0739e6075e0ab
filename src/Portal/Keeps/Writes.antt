-- ===== src/Portal/Keeps/Writes.antt =====
-- The handlers that write on the server, and all handlers together.
use the_black_hole.Prelude.{String, none, some, Bool, true, false, ◌≡◌, refl}
use the_black_hole.Portal.Types.{Request, Body, Verb, Payload, post, credentials}
use the_black_hole.Portal.World.{World}
use the_black_hole.Portal.Keeps.{Keeps, Keeps-done, Keeps-read, Keeps-fetch, Keeps-bind}
use the_black_hole.Portal.Keeps.Page.{
  Closed, keeps_page, Keeps-received, Keeps-set_value, Keeps-set_checked, Keeps-show, Keeps-hide,
  Keeps-show_toast,
}
use the_black_hole.Portal.Keeps.Bodies.{Keeps-json_login, Keeps-json_error}
use the_black_hole.Portal.Keeps.Handlers.{
  ClosedPage, Keeps-start, Keeps-accept_login, Keeps-click_logout, Keeps-click_sso,
  Keeps-open_connection_modal, Keeps-open_endpoint_modal, Keeps-open_token_modal,
  Keeps-generate_token, Keeps-trigger_download, Keeps-copied, Keeps-toggle_theme,
}
use the_black_hole.Portal.Router.{Handler}
use the_black_hole.Portal.Session.{submit_login}
use the_black_hole.Portal.Forms.{
  send, report, delete_item, delete_vault_secret, delete_connection, delete_endpoint,
  delete_client_token, finish_form, submit_connection, submit_endpoint, submit_secret, submit_token,
}
use the_black_hole.Portal.Loop.{
  Action, type_text, set_box, login, logout, sso, save_connection, save_endpoint, save_secret,
  save_token, remove_secret, remove_connection, remove_endpoint, remove_token, edit_connection,
  edit_endpoint, new_token, generate, show_dialog, close_dialog, download, copy, theme, handler_of,
}

-- A payload of the forms and buttons, which is no password.
abbrev pub IsForm : Payload → Type 0
IsForm (credentials _ _) = ⊥
IsForm _ = Unit {0}

-- What the others need besides: their requests are good ones.
pub record ClosedAll (I : World → Type 0) (R : World → Request → Type 0) : Type 0 where
  pub page : ClosedPage I R
  pub on_login :
      (w : World) (username password : String)
      → R w (record {
        verb = post;
        url = "/api/auth/login";
        bearer = none;
        payload = credentials username password;
      })
  pub on_send :
      (w : World) (verb : Verb) (url : String) (payload : Payload)
      → IsForm payload
      → R w (record { verb = verb; url = url; bearer = some w.state.token; payload = payload })

-- Does an action write on the server? A deletion does if it is confirmed.
unfoldable pub writes : Action → Bool
writes login = true
writes save_connection = true
writes save_endpoint = true
writes save_secret = true
writes save_token = true
writes (remove_secret b s) = b
writes (remove_connection b s) = b
writes (remove_endpoint b s) = b
writes (remove_token b s) = b
writes _ = false

module _ {I : World → Type 0} {R : World → Request → Type 0} (p : ClosedPage I R) where
  abbrev c : Closed I R
  c = p.base

  -- A deletion that is not confirmed does nothing.
  Keeps-delete_item_refused :
      (url success failure : String) (h : Handler) (w : World)
      → Keeps I R (delete_item false url success failure h) w
  unfolding delete_item
  Keeps-delete_item_refused url success failure h w = Keeps-done tt w

  Keeps-delete_vault_secret_refused :
      (s : String) (w : World) → Keeps I R (delete_vault_secret false s) w
  unfolding delete_vault_secret
  Keeps-delete_vault_secret_refused s w = Keeps-done tt w

  Keeps-delete_connection_refused :
      (s : String) (w : World) → Keeps I R (delete_connection false s) w
  unfolding delete_connection
  Keeps-delete_connection_refused s w = Keeps-done tt w

  Keeps-delete_endpoint_refused : (s : String) (w : World) → Keeps I R (delete_endpoint false s) w
  unfolding delete_endpoint
  Keeps-delete_endpoint_refused s w = Keeps-done tt w

  Keeps-delete_client_token_refused :
      (s : String) (w : World) → Keeps I R (delete_client_token false s) w
  unfolding delete_client_token
  Keeps-delete_client_token_refused s w = Keeps-done tt w

  -- The handlers of the actions that write nothing on the server.
  pub Keeps-handler_of_quiet :
      (a : Action) (w : World) → writes a ≡ false → Keeps I R (handler_of a) w
  unfolding handler_of writes
  Keeps-handler_of_quiet (type_text id s) w _ = Keeps-set_value c id s w
  Keeps-handler_of_quiet (set_box id b) w _ = Keeps-set_checked c id b w
  Keeps-handler_of_quiet logout w _ = Keeps-click_logout p w
  Keeps-handler_of_quiet sso w _ = Keeps-click_sso p w
  Keeps-handler_of_quiet (remove_secret false s) w _ = Keeps-delete_vault_secret_refused s w
  Keeps-handler_of_quiet (remove_connection false s) w _ = Keeps-delete_connection_refused s w
  Keeps-handler_of_quiet (remove_endpoint false s) w _ = Keeps-delete_endpoint_refused s w
  Keeps-handler_of_quiet (remove_token false s) w _ = Keeps-delete_client_token_refused s w
  Keeps-handler_of_quiet (edit_connection id) w _ = Keeps-open_connection_modal p id w
  Keeps-handler_of_quiet (edit_endpoint id) w _ = Keeps-open_endpoint_modal p id w
  Keeps-handler_of_quiet new_token w _ = Keeps-open_token_modal p w
  Keeps-handler_of_quiet (generate bytes) w _ = Keeps-generate_token p bytes w
  Keeps-handler_of_quiet (show_dialog id) w _ = Keeps-show c id w
  Keeps-handler_of_quiet (close_dialog id) w _ = Keeps-hide c id w
  Keeps-handler_of_quiet download w _ = Keeps-trigger_download p w
  Keeps-handler_of_quiet (copy b) w _ = Keeps-copied p b w
  Keeps-handler_of_quiet theme w _ = Keeps-toggle_theme p w
  Keeps-handler_of_quiet _ w h = cc

module _ {I : World → Type 0} {R : World → Request → Type 0} (a : ClosedAll I R) where
  abbrev p : ClosedPage I R
  p = a.page

  abbrev c' : Closed I R
  c' = a.page.base

  Keeps-report : (e : String) (w : World) → Keeps I R (report e) w
  unfolding report
  Keeps-report e w = Keeps-show_toast c' e "error" w

  Keeps-send :
      (verb : Verb) (url : String) (payload : Payload) (k : Bool → Body → Handler) (w : World)
      → IsForm payload
      → ((b : Bool) (body : Body) (v : World) → Keeps I R (k b body) v)
      → Keeps I R (send verb url payload k) w
  unfolding send
  Keeps-send verb url payload k w f h = Keeps-read _ w (
      Keeps-fetch _ _ w (a.on_send w verb url payload f)
        (λ r v. Keeps-received c' r k v (λ b body. h b body v)))

  Keeps-finish_form :
      (failure : String) (h : Handler) (b : Bool) (body : Body) (w : World)
      → ((v : World) → Keeps I R h v)
      → Keeps I R (finish_form failure h b body) w
  unfolding finish_form
  Keeps-finish_form failure h b body w k = search (keeps_page, Keeps-json_error, k) depth 20

  Keeps-delete_item :
      (b : Bool) (url success failure : String) (h : Handler) (w : World)
      → ((v : World) → Keeps I R h v)
      → Keeps I R (delete_item b url success failure h) w
  unfolding delete_item
  Keeps-delete_item b url success failure h w k =
      search (keeps_page, Keeps-send, Keeps-report, k) depth 20

  Keeps-delete_vault_secret :
      (b : Bool) (s : String) (w : World) → Keeps I R (delete_vault_secret b s) w
  unfolding delete_vault_secret
  Keeps-delete_vault_secret b s w = search (Keeps-start p, Keeps-delete_item) depth 10

  Keeps-delete_connection :
      (b : Bool) (s : String) (w : World) → Keeps I R (delete_connection b s) w
  unfolding delete_connection
  Keeps-delete_connection b s w = search (Keeps-bind, Keeps-start p, Keeps-delete_item) depth 10

  Keeps-delete_endpoint : (b : Bool) (s : String) (w : World) → Keeps I R (delete_endpoint b s) w
  unfolding delete_endpoint
  Keeps-delete_endpoint b s w = search (Keeps-start p, Keeps-delete_item) depth 10

  Keeps-delete_client_token :
      (b : Bool) (s : String) (w : World) → Keeps I R (delete_client_token b s) w
  unfolding delete_client_token
  Keeps-delete_client_token b s w = search (Keeps-start p, Keeps-delete_item) depth 10

  Keeps-submit_connection : (w : World) → Keeps I R submit_connection w
  unfolding submit_connection
  Keeps-submit_connection w =
      search (keeps_page, Keeps-send, Keeps-finish_form, Keeps-report, Keeps-start p) depth 30

  Keeps-submit_endpoint : (w : World) → Keeps I R submit_endpoint w
  unfolding submit_endpoint
  Keeps-submit_endpoint w =
      search (keeps_page, Keeps-send, Keeps-finish_form, Keeps-report, Keeps-start p) depth 30

  Keeps-submit_secret : (w : World) → Keeps I R submit_secret w
  unfolding submit_secret
  Keeps-submit_secret w =
      search (keeps_page, Keeps-send, Keeps-finish_form, Keeps-report, Keeps-start p) depth 30

  Keeps-submit_token : (w : World) → Keeps I R submit_token w
  unfolding submit_token
  Keeps-submit_token w =
      search (keeps_page, Keeps-send, Keeps-finish_form, Keeps-report, Keeps-start p) depth 30

  Keeps-submit_login : (w : World) → Keeps I R submit_login w
  unfolding submit_login
  Keeps-submit_login w =
      search (keeps_page, Keeps-fetch, a.on_login, Keeps-json_login, Keeps-accept_login p) depth 20

  -- Every handler.
  pub Keeps-handler_of : (x : Action) (w : World) → Keeps I R (handler_of x) w
  unfolding handler_of writes
  Keeps-handler_of login w = Keeps-submit_login w
  Keeps-handler_of save_connection w = Keeps-submit_connection w
  Keeps-handler_of save_endpoint w = Keeps-submit_endpoint w
  Keeps-handler_of save_secret w = Keeps-submit_secret w
  Keeps-handler_of save_token w = Keeps-submit_token w
  Keeps-handler_of (remove_secret b s) w = Keeps-delete_vault_secret b s w
  Keeps-handler_of (remove_connection b s) w = Keeps-delete_connection b s w
  Keeps-handler_of (remove_endpoint b s) w = Keeps-delete_endpoint b s w
  Keeps-handler_of (remove_token b s) w = Keeps-delete_client_token b s w
  Keeps-handler_of x w = Keeps-handler_of_quiet p x w refl
