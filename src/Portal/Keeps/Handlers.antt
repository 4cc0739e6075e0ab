-- ===== src/Portal/Keeps/Handlers.antt =====
-- The handlers of the user's actions and of the browser's events keep an invariant that their
-- assignments keep.
use the_black_hole.Prelude.{
  String, List, Option, none, some, Bool, if_cases, has_prefix, is_set, ◌===◌, ℕ, zero, suc,
}
use the_black_hole.Portal.Types.{Connection, Endpoint, Login, Request}
use the_black_hole.Portal.World.{World}
use the_black_hole.Portal.Keeps.{
  Keeps, Keeps-done, Keeps-bind, Keeps-modify, Keeps-catch, Keeps-spawn,
}
use the_black_hole.Portal.Keeps.Page.{Closed, keeps_page}
use the_black_hole.Portal.Loaders.Names.{Loader}
use the_black_hole.Portal.Router.{
  start, assign_hash, clear_views, show_view, load_route, handle_route, setup_router,
}
use the_black_hole.Portal.Session.{
  write_session, drop_session, accept_callback, read_callback, load_views, bootstrap_app,
  show_session, init_auth, accept_login, click_logout, click_sso,
}
use the_black_hole.Portal.Dialogs.{
  fill_connection, fill_found_connection, open_connection_modal, fill_endpoint, fill_found_endpoint,
  open_endpoint_modal, open_token_modal, generate_token, trigger_download, copied, toggle_theme,
}
use the_black_hole.Portal.Loop.{route_listeners}

-- What the handlers need that write nothing on the server.
pub record ClosedPage (I : World → Type 0) (R : World → Request → Type 0) : Type 0 where
  pub base : Closed I R
  pub on_hash : (w : World) (h : String) (n : ℕ) → I w → I (record w { hash = h; announced = n })
  pub on_listening : (w : World) (n : ℕ) → I w → I (record w { listening = n })
  pub on_session : (w : World) (token username : String) → I w → I (write_session token username w)
  pub on_drop : (w : World) → I w → I (drop_session w)
  pub on_location : (w : World) (s : String) → I w → I (record w { location = s })
  pub on_theme :
      (w : World) (b : Bool) (t : Option String)
      → I w
      → I (record w { light = b; storage = record (w.storage) { theme = t } })

module _ {I : World → Type 0} {R : World → Request → Type 0} (p : ClosedPage I R) where
  abbrev c : Closed I R
  c = p.base

  I-assign_hash : (h : String) (w : World) → I w → I (assign_hash h w)
  unfolding assign_hash
  I-assign_hash h w i = if_cases I (w.hash === h) w _ (λ _. i) (λ _. p.on_hash w h _ i)

  I-accept_callback : (o : Option String) (w : World) → I w → I (accept_callback o w)
  unfolding accept_callback
  I-accept_callback none w i = i
  I-accept_callback (some token) w i =
      if_cases I (is_set token) _ w (λ _. I-assign_hash "#dashboard" _ (p.on_session w token _ i))
        (λ _. i)

  I-read_callback : (w : World) → I w → I (read_callback w)
  unfolding read_callback
  I-read_callback w i =
      if_cases I (has_prefix w.hash "#token=") _ w (λ _. I-accept_callback _ w i) (λ _. i)

  I-clear_views : (w : World) → I w → I (clear_views w)
  unfolding clear_views
  I-clear_views w i = c.on_dom w _ i

  pub Keeps-start : (l : Loader) (w : World) → Keeps I R (start l) w
  unfolding start
  Keeps-start l w = Keeps-spawn l _ w (Keeps-done tt)

  Keeps-load_route : (r : String) (w : World) → Keeps I R (load_route r) w
  unfolding load_route
  Keeps-load_route r w = search (keeps_page, Keeps-start) depth 30

  Keeps-show_view : (name : String) (w : World) → Keeps I R (show_view name) w
  unfolding show_view
  Keeps-show_view name w = search (keeps_page) depth 20

  pub Keeps-handle_route : (w : World) → Keeps I R handle_route w
  unfolding handle_route
  Keeps-handle_route w =
      search
        (keeps_page, Keeps-modify, Keeps-show_view, Keeps-load_route, I-assign_hash, I-clear_views)
        depth 20

  Keeps-setup_router : (w : World) → Keeps I R setup_router w
  unfolding setup_router
  Keeps-setup_router w = Keeps-modify _ _ w (λ v i. p.on_listening v _ i) Keeps-handle_route

  Keeps-load_views : (w : World) → Keeps I R load_views w
  unfolding load_views
  Keeps-load_views w = search (Keeps-bind, Keeps-start) depth 20

  Keeps-bootstrap_app : (w : World) → Keeps I R bootstrap_app w
  unfolding bootstrap_app
  Keeps-bootstrap_app w = search (keeps_page, Keeps-setup_router, Keeps-load_views) depth 20

  Keeps-show_session : (w : World) → Keeps I R show_session w
  unfolding show_session
  Keeps-show_session w = search (keeps_page, Keeps-bootstrap_app) depth 20

  pub Keeps-init_auth : (w : World) → Keeps I R init_auth w
  unfolding init_auth
  Keeps-init_auth w = Keeps-modify _ _ w I-read_callback Keeps-show_session

  pub Keeps-accept_login : (b : Bool) (l : Login) (w : World) → Keeps I R (accept_login b l) w
  unfolding accept_login
  Keeps-accept_login b l w =
      search (keeps_page, Keeps-modify, p.on_session, Keeps-init_auth) depth 20

  pub Keeps-click_logout : (w : World) → Keeps I R click_logout w
  unfolding click_logout
  Keeps-click_logout w = Keeps-modify _ _ w p.on_drop (Keeps-done tt)

  pub Keeps-click_sso : (w : World) → Keeps I R click_sso w
  unfolding click_sso
  Keeps-click_sso w = Keeps-modify _ _ w (λ v i. p.on_location v _ i) (Keeps-done tt)

  Keeps-fill_connection : (x : Connection) (w : World) → Keeps I R (fill_connection x) w
  unfolding fill_connection
  Keeps-fill_connection x w = search (keeps_page) depth 30

  Keeps-fill_found_connection :
      (o : Option Connection) (w : World) → Keeps I R (fill_found_connection o) w
  unfolding fill_found_connection
  Keeps-fill_found_connection none w = Keeps-done tt w
  Keeps-fill_found_connection (some x) w = Keeps-fill_connection x w

  pub Keeps-open_connection_modal :
      (id : String) (w : World) → Keeps I R (open_connection_modal id) w
  unfolding open_connection_modal
  Keeps-open_connection_modal id w = search (keeps_page, Keeps-fill_found_connection) depth 30

  Keeps-fill_endpoint : (x : Endpoint) (w : World) → Keeps I R (fill_endpoint x) w
  unfolding fill_endpoint
  Keeps-fill_endpoint x w = search (keeps_page) depth 30

  Keeps-fill_found_endpoint :
      (o : Option Endpoint) (w : World) → Keeps I R (fill_found_endpoint o) w
  unfolding fill_found_endpoint
  Keeps-fill_found_endpoint none w = Keeps-done tt w
  Keeps-fill_found_endpoint (some x) w = Keeps-fill_endpoint x w

  pub Keeps-open_endpoint_modal : (id : String) (w : World) → Keeps I R (open_endpoint_modal id) w
  unfolding open_endpoint_modal
  Keeps-open_endpoint_modal id w = search (keeps_page, Keeps-fill_found_endpoint) depth 30

  pub Keeps-open_token_modal : (w : World) → Keeps I R (open_token_modal) w
  unfolding open_token_modal
  Keeps-open_token_modal w = search (keeps_page) depth 20

  pub Keeps-generate_token : (bytes : List ℕ) (w : World) → Keeps I R (generate_token bytes) w
  unfolding generate_token
  Keeps-generate_token bytes w = search (keeps_page) depth 20

  pub Keeps-trigger_download : (w : World) → Keeps I R (trigger_download) w
  unfolding trigger_download
  Keeps-trigger_download w = search (keeps_page) depth 20

  pub Keeps-copied : (b : Bool) (w : World) → Keeps I R (copied b) w
  unfolding copied
  Keeps-copied b w = search (keeps_page) depth 20

  pub Keeps-toggle_theme : (w : World) → Keeps I R toggle_theme w
  unfolding toggle_theme
  Keeps-toggle_theme w = Keeps-modify _ _ w (λ v i. p.on_theme v _ _ i) (Keeps-done tt)

  pub Keeps-route_listeners : (n : ℕ) (w : World) → Keeps I R (route_listeners n) w
  unfolding route_listeners
  Keeps-route_listeners zero w = Keeps-done tt w
  Keeps-route_listeners (suc n) w =
      Keeps-bind _ _ w (Keeps-catch _ _ w (Keeps-handle_route w) (λ _. Keeps-done tt))
        (λ _. Keeps-route_listeners n)
