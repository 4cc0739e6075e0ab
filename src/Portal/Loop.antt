-- ===== src/Portal/Loop.antt =====
-- The browser's event loop over app.js: the calls that wait for a reply, in any order of replies,
-- between the user's actions and the browser's own events.
pub mod Invariant
pub mod Session
pub mod Requests
pub mod Visible
use the_black_hole.Prelude.{
  ℕ, zero, suc, ◌+◌, ◌-◌, String, List, [], ◌∷◌, ◌++◌, Option, none, some, Bool, true, false, not,
  ◌&&◌, ◌==◌, if◌then◌else◌, includes, get_elem?, erase_idx,
}
use the_black_hole.Portal.Types.{Request, Reply, response, rejected}
use the_black_hole.Portal.World.{State, World, Storage, Element, change}
use the_black_hole.Portal.Task.{Task, done, modify, Waiting, advance, catch, ◌>>◌}
use the_black_hole.Portal.Page.{hide, show, set_value, set_checked}
use the_black_hole.Portal.Loaders.Names.{Loader, body_of}
use the_black_hole.Portal.Router.{Handler, handle_route}
use the_black_hole.Portal.Session.{init_auth, submit_login, click_logout, click_sso, drop_session}
use the_black_hole.Portal.Forms.{
  delete_vault_secret, delete_connection, delete_endpoint, delete_client_token, submit_connection,
  submit_endpoint, submit_secret, submit_token,
}
use the_black_hole.Portal.Dialogs.{
  open_connection_modal, open_endpoint_modal, open_token_modal, generate_token, trigger_download,
  copied, toggle_theme,
}

-- What a user does. The answer to a `confirm` dialog comes with the click that opens it.
pub data Action : Type 0 where
  type_text : (id text : String) → Action
  set_box : (id : String) → Bool → Action
  login logout sso : Action
  save_connection save_endpoint save_secret save_token : Action
  remove_secret remove_connection remove_endpoint remove_token : Bool → String → Action
  edit_connection edit_endpoint : String → Action
  new_token : Action
  generate : List ℕ → Action
  show_dialog close_dialog : String → Action
  download : Action
  copy : Bool → Action
  theme : Action

unfoldable pub handler_of : Action → Handler
handler_of (type_text id text) = set_value id text
handler_of (set_box id b) = set_checked id b
handler_of login = submit_login
handler_of logout = click_logout
handler_of sso = click_sso
handler_of save_connection = submit_connection
handler_of save_endpoint = submit_endpoint
handler_of save_secret = submit_secret
handler_of save_token = submit_token
handler_of (remove_secret b key) = delete_vault_secret b key
handler_of (remove_connection b id) = delete_connection b id
handler_of (remove_endpoint b id) = delete_endpoint b id
handler_of (remove_token b token) = delete_client_token b token
handler_of (edit_connection id) = open_connection_modal id
handler_of (edit_endpoint id) = open_endpoint_modal id
handler_of new_token = open_token_modal
handler_of (generate bytes) = generate_token bytes
handler_of (show_dialog id) = show id
handler_of (close_dialog id) = hide id
handler_of download = trigger_download
handler_of (copy b) = copied b
handler_of theme = toggle_theme

-- An event of the loop: an action, the reply to the request at an index of the pool, a change of
-- the hash, the end of a toast's timer, or the reload of the page.
pub data Event : Type 0 where
  act : Action → Event
  reply : ℕ → Reply → Event
  hashchange timer reload : Event

pub record System : Type 0 where
  pub world : World
  pub pool : List (Waiting Loader)

-- A loader up to its first `await`; it calls no other.
unfoldable pub launch : Loader → World → World × List (Waiting Loader)
launch l w = advance (λ _ v. (v, [])) (body_of l) w

unfoldable pub run_handler : Handler → World → World × List (Waiting Loader)
unfolding launch
run_handler h w = advance launch h w

-- The wrapper of `window.fetch`: an answer 401 to anything but a login ends the session.
unfoldable pub intercept : Request → Reply → World → World
unfolding drop_session
intercept req (rejected message) w = w
intercept req (response status body) w =
    if status == 401 && not (includes req.url "/api/auth/login") then drop_session w else w

-- `localStorage.getItem(…) || ''`
unfoldable pub stored : Option String → String
stored none = ""
stored (some s) = s

-- The page as the browser opens it, before `window.onload`. The log of requests goes on.
unfoldable pub open_page : World → World
unfolding stored
open_page w = record w {
  state = record {
    token = stored w.storage.token;
    username = stored w.storage.username;
    connections = [];
    endpoints = [];
    logs = [];
    tokens = [];
  };
  dom = w.page;
  listening = 0;
  announced = 0;
  timers = 0;
  reloading = false;
  light = false;
}

-- `window.onload = initAuth` on the fresh page.
unfoldable pub start_page : World → System
unfolding open_page run_handler
start_page w =
    let (w', new) = run_handler init_auth (open_page w) in record { world = w'; pool = new }

unfoldable pub add_run : List (Waiting Loader) → World × List (Waiting Loader) → System
add_run pool (w, new) = record { world = w; pool = pool ++ new }

-- The listeners of the router, one for each call of `setupRouter`. What one throws does not stop
-- the others.
unfoldable pub route_listeners : ℕ → Handler
route_listeners zero = done tt
route_listeners (suc n) = catch handle_route (λ e. done tt) >> route_listeners n

-- A reply arrives at a call that waits: first the wrapper of `fetch`, then the call goes on.
unfoldable pub resume_at : ℕ → Reply → System → Option (Waiting Loader) → System
unfolding run_handler intercept add_run
resume_at i r s none = s
resume_at i r s (some p) =
    add_run (erase_idx s.pool i) (run_handler (p.resume r) (intercept p.request r s.world))

-- An announced change of the hash is handled.
unfoldable pub route_at : ℕ → System → System
unfolding run_handler add_run route_listeners
route_at zero s = s
route_at (suc n) s =
    add_run s.pool
      (run_handler (route_listeners s.world.listening) (record (s.world) { announced = n }))

-- The end of a timer of `showToast`.
unfoldable pub timer_at : ℕ → System → System
unfolding run_handler add_run
timer_at zero s = s
timer_at (suc n) s = add_run s.pool (run_handler (hide "toast") (record (s.world) { timers = n }))

unfoldable pub step : Event → System → System
unfolding run_handler start_page add_run handler_of resume_at route_at timer_at
step (act a) s = add_run s.pool (run_handler (handler_of a) s.world)
step (reply i r) s = resume_at i r s (get_elem? s.pool i)
step hashchange s = route_at s.world.announced s
step timer s = timer_at s.world.timers s
step reload s = if s.world.reloading then start_page s.world else s

unfoldable pub run : List Event → System → System
unfolding step
run [] s = s
run (e ∷ es) s = run es (step e s)
