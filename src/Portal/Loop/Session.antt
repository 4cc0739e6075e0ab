-- ===== src/Portal/Loop/Session.antt =====
-- The session: `STATE` and local storage agree whenever the page is not about to be left, and
-- leaving a session leaves nothing behind.
use the_black_hole.Prelude.{
  String, List, [], Option, none, some, true, false, ◌≡◌, refl, sym, ap, is_set, if_cases, subst,
  has_prefix,
}
use the_black_hole.Portal.Types.{Request}
use the_black_hole.Portal.World.{World, Element, Dom, change}
use the_black_hole.Portal.Task.{Waiting, advance, done, throw, modify, ◌>>◌, ◌>>=◌}
use the_black_hole.Portal.Router.{Handler}
use the_black_hole.Portal.Loaders.Names.{Loader}
use the_black_hole.Portal.Page.{show, hide, on_element}
use the_black_hole.Portal.Session.{
  drop_session, click_logout, show_session, init_auth, read_callback,
}
use the_black_hole.Portal.Loop.{act, reload, logout, System, launch, stored, open_page, step}

-- The session that `STATE` holds is the one in local storage.
pub record InSync (w : World) : Type 0 where
  pub same :
      w.reloading ≡ false
      → (stored w.storage.token ≡ w.state.token) × (stored w.storage.username ≡ w.state.username)

abbrev AnyRequest : World → Request → Type 0
AnyRequest w r = Unit {0}

-- A segment that sends nothing, waits for nothing and leaves `STATE` alone.
abbrev Silent : World → World × List (Waiting Loader) → Type 0
Silent w r = (r.1 ≡ []) × (r.0.state ≡ w.state) × (r.0.sent ≡ w.sent)

abbrev assign : Option Element → String → (Element → Element) → Handler
assign o id f = elim o [
  | none ↦ throw "Cannot set properties of null"
  | some _ ↦ modify (λ v. record v { dom = change id f v.dom }) (done tt)
]

assign-Silent :
    (o : Option Element) (id : String) (f : Element → Element) (w : World)
    → Silent w (advance launch (assign o id f) w)
assign-Silent none id f w = (refl, refl, refl)
assign-Silent (some e) id f w = (refl, refl, refl)

assign_then-Silent :
    (o : Option Element) (id : String) (f : Element → Element) (k : Handler) (w : World)
    → ((d : Dom) → Silent w (advance launch k (record w { dom = d })))
    → Silent w (advance launch (assign o id f >>= λ _. k) w)
assign_then-Silent none id f k w h = (refl, refl, refl)
assign_then-Silent (some e) id f k w h = h (change id f w.dom)

show_login-Silent :
    (w : World) → Silent w (advance launch (do show "login-container"; hide "app-shell") w)
unfolding show hide on_element
show_login-Silent w =
    assign_then-Silent (w.dom "login-container") _ _ _ w
      λ d. assign-Silent (d "app-shell") _ _ (record w { dom = d })

read_callback_plain : (w : World) → has_prefix w.hash "#token=" ≡ false → read_callback w ≡ w
unfolding read_callback
read_callback_plain w h = rw h

not-is_set_empty : (s : String) → s ≡ "" → is_set s ≡ true → ⊥
not-is_set_empty s e h = cc (subst (λ t. is_set t ≡ true) e h)

show_session-Silent : (w : World) → w.state.token ≡ "" → Silent w (advance launch show_session w)
unfolding show_session
show_session-Silent w e =
    if_cases (λ h. Silent w (advance launch h w)) (is_set w.state.token) _ _
      (λ h. absurd (not-is_set_empty w.state.token e h)) (λ _. show_login-Silent w)

init_auth-Silent :
    (w : World)
    → has_prefix w.hash "#token=" ≡ false
    → w.state.token ≡ ""
    → Silent w (advance launch init_auth w)
unfolding init_auth
init_auth-Silent w h e =
    subst (λ v. Silent w (advance launch show_session v)) (sym (read_callback_plain w h))
      (show_session-Silent w e)

-- After a logout and the reload that it asks for, no call waits for a reply, `STATE` has no token
-- and nothing was sent, unless the address carries a new token.
pub logout_reload :
    (s : System)
    → has_prefix s.world.hash "#token=" ≡ false
    → ((step reload (step (act logout) s)).pool ≡ [])
      × ((step reload (step (act logout) s)).world.state.token ≡ "")
      × ((step reload (step (act logout) s)).world.sent ≡ s.world.sent)
unfolding step click_logout drop_session open_page stored
logout_reload s h =
    let (no_calls, same, quiet) = init_auth-Silent (open_page (drop_session s.world)) h refl in
    (no_calls, ap (λ t. t.token) same, quiet)
