-- ===== src/Portal/Router.antt =====
-- The router: `setupRouter`, whose `handleRoute` shows the view that the hash names.
use the_black_hole.Prelude.{
  ℕ, ◌+◌, String, none, some, Bool, true, false, not, ◌&&◌, ◌||◌, ◌===◌, ◌<>◌, ◌==◌, leb,
  if◌then◌else◌, is_set, or_else, code,
}
use the_black_hole.Portal.World.{World, change_all}
use the_black_hole.Portal.Task.{Task, done, modify, read, spawn, ◌>>◌}
use the_black_hole.Portal.Page.{on_element, set_text, show, if_present}
use the_black_hole.Portal.Loaders.Telemetry.{is_space}
use the_black_hole.Portal.Loaders.Names.{
  Loader, dashboard_stats, connections, endpoints, audit_logs, vault_secrets, settings_config,
  openapi_docs, client_tokens, telemetry,
}

abbrev pub Handler : Type 0
Handler = Task Loader (Unit {0})

-- A call without `await`, at the end of a function.
unfoldable pub start : Loader → Handler
start l = spawn l (done tt)

-- `window.location.hash = h`: a change of the hash is announced by an event that is handled later.
unfoldable pub assign_hash : String → World → World
assign_hash h w = if w.hash === h then w else record w { hash = h; announced = w.announced + 1 }

-- `\w` of a regular expression
unfoldable pub is_word : ℕ → Bool
is_word c =
    (leb b'a' c && leb c b'z')
    || (leb b'A' c && leb c b'Z')
    || (leb b'0' c && leb c b'9')
    || c == b'_'

-- `.replace(/[^\w\s]/g, '')`
unfoldable pub strip_signs : String → String
unfolding is_word is_space
strip_signs String.[] = ""
strip_signs (String.◌∷◌ c s) =
    if is_word (code c) || is_space (code c) then String.◌∷◌ c (strip_signs s) else strip_signs s

-- `.trim()`
unfoldable pub trim_start : String → String
unfolding is_space
trim_start String.[] = ""
trim_start (String.◌∷◌ c s) = if is_space (code c) then trim_start s else String.◌∷◌ c s

trim_end : String → String
unfolding is_space
trim_end String.[] = ""
trim_end (String.◌∷◌ c s) =
    let rest = trim_end s in
    if is_space (code c) && not (is_set rest) then "" else String.◌∷◌ c rest

unfoldable pub trim : String → String
unfolding trim_start trim_end
trim s = trim_end (trim_start s)

-- `window.location.hash || '#dashboard'`
unfoldable pub route_of : World → String
route_of w = or_else w.hash "#dashboard"

-- `route.substring(1)`
unfoldable pub view_name : String → String
view_name String.[] = ""
view_name (String.◌∷◌ c s) = s

-- The title: the text of the menu item without its signs, or `Dashboard` where there is none.
unfoldable pub page_title : World → String → String
unfolding strip_signs trim
page_title w nav = elim (w.dom nav) [
  | none ↦ "Dashboard"
  | some e ↦ trim (strip_signs (w.browser.inner_text e.content))
]

-- Every section hidden and no menu item active, then the target shown.
unfoldable pub clear_views : World → World
clear_views w = record w {
  dom =
      change_all w.navs (λ e. record e { active = false })
        (change_all w.sections (λ e. record e { hidden = true }) w.dom);
}

unfoldable pub show_view : String → Handler
unfolding page_title
show_view name = do
  if_present ("view-" <> name)
      (do show ("view-" <> name); read λ w. set_text "page-title" (page_title w ("nav-" <> name)))
  if_present ("nav-" <> name) (on_element ("nav-" <> name) (λ e. record e { active = true }))

-- The route specific fetches.
unfoldable pub load_route : String → Handler
load_route route = do
  if route === "#dashboard" then start dashboard_stats else done tt
  if route === "#connections" then start connections else done tt
  if route === "#endpoints" then start endpoints else done tt
  if route === "#tokens" then start client_tokens else done tt
  if route === "#telemetry" then start telemetry else done tt
  if route === "#logs" then start audit_logs else done tt
  if route === "#settings"
      then (do start settings_config; start vault_secrets; start openapi_docs)
      else done tt

-- `handleRoute`
unfoldable pub handle_route : Handler
handle_route = read λ w.
    let route = route_of w in
    if route === "#vault" || route === "#openapi"
    then modify (assign_hash "#settings") (done tt)
    else modify clear_views (do show_view (view_name route); load_route route)

-- `setupRouter`
unfoldable pub setup_router : Handler
setup_router = modify (λ w. record w { listening = w.listening + 1 }) handle_route
