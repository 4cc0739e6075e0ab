-- ===== src/Portal/Loop/Invariant.antt =====
-- What the segments of all calls keep, every sequence of events keeps.
use the_black_hole.Prelude.{
  ℕ, zero, suc, List, [], ◌∷◌, Option, none, some, All, All-append, All-erase_idx, if_cases,
  get_elem?, erase_idx, ◌≡◌, refl, subst, some-injective,
}
use the_black_hole.Portal.Types.{Request, Reply, response, rejected}
use the_black_hole.Portal.World.{World}
use the_black_hole.Portal.Task.{Waiting}
use the_black_hole.Portal.Loaders.Names.{Loader, body_of}
use the_black_hole.Portal.Router.{Handler}
use the_black_hole.Portal.Session.{init_auth}
use the_black_hole.Portal.Keeps.{Keeps, WaitsWell, EndsWell, advance-EndsWell}
use the_black_hole.Portal.Keeps.Page.{Keeps-hide}
use the_black_hole.Portal.Keeps.Loaders.{Keeps-body_of}
use the_black_hole.Portal.Keeps.Handlers.{ClosedPage, Keeps-route_listeners, Keeps-init_auth}
use the_black_hole.Portal.Loop.{
  Action, handler_of, Event, act, reply, hashchange, timer, reload, System, launch, run_handler,
  intercept, open_page, start_page, add_run, route_listeners, resume_at, route_at, timer_at, step,
  run,
}

All-get_elem? {ℓ κ} :
    {A : Type ℓ} (P : A → Type κ) (xs : List A) (i : ℕ) {a : A}
    → All P xs
    → get_elem? xs i ≡ some a
    → P a
All-get_elem? P [] i h e = cc
All-get_elem? P (x ∷ xs) zero h e = subst P (some-injective _ _ e) h.0
All-get_elem? P (x ∷ xs) (suc i) h e = All-get_elem? P xs i h.1 e

module _ {I : World → Type 0} {R : World → Request → Type 0} (p : ClosedPage I R)
    (sending : (w : World) (r : Request)
      → I w
      → R w r
      → I (record w { sent = r ∷ w.sent; held = w.state.token ∷ w.held }))
    (opening : (w : World) → I w → I (open_page w)) where
  -- The invariant holds of the world, and every call that waits keeps it when it goes on.
  abbrev pub Good : System → Type 0
  Good s = I s.world × All (WaitsWell I R) s.pool

  launch-EndsWell : (l : Loader) (w : World) → I w → EndsWell I R (launch l w)
  unfolding launch
  launch-EndsWell l w i =
      advance-EndsWell I R sending (λ _ v. (v, [])) (λ _ v j. (j, tt)) (body_of l) w i
        (Keeps-body_of p.base l w).at

  run_handler-EndsWell :
      (h : Handler) (w : World) → I w → Keeps I R h w → EndsWell I R (run_handler h w)
  unfolding run_handler
  run_handler-EndsWell h w i k = advance-EndsWell I R sending launch launch-EndsWell h w i k.at

  add_run-Good :
      (pool : List (Waiting Loader)) (h : Handler) (w : World)
      → All (WaitsWell I R) pool
      → I w
      → Keeps I R h w
      → Good (add_run pool (run_handler h w))
  unfolding add_run
  add_run-Good pool h w q i k =
      let (i', q') = run_handler-EndsWell h w i k in
      (i', All-append (WaitsWell I R) pool (run_handler h w).1 q q')

  I-intercept : (req : Request) (r : Reply) (w : World) → I w → I (intercept req r w)
  unfolding intercept
  I-intercept req (rejected message) w i = i
  I-intercept req (response status body) w i = if_cases I _ _ w (λ _. p.on_drop w i) (λ _. i)

  pub start_page-Good : (w : World) → I w → Good (start_page w)
  unfolding start_page
  start_page-Good w i =
      run_handler-EndsWell init_auth (open_page w) (opening w i) (Keeps-init_auth p (open_page w))

  resume-Good :
      (i : ℕ) (r : Reply) (s : System) (o : Option (Waiting Loader))
      → get_elem? s.pool i ≡ o
      → Good s
      → Good (resume_at i r s o)
  unfolding resume_at
  resume-Good i r s none e g = g
  resume-Good i r s (some q) e (j, ws) =
      add_run-Good (erase_idx s.pool i) (q.resume r) (intercept q.request r s.world)
        (All-erase_idx (WaitsWell I R) s.pool i ws) (I-intercept q.request r s.world j)
        (record { at = All-get_elem? (WaitsWell I R) s.pool i ws e r _ })

  route-Good : (n : ℕ) (s : System) → Good s → Good (route_at n s)
  unfolding route_at
  route-Good zero s g = g
  route-Good (suc n) s (i, ws) =
      add_run-Good s.pool (route_listeners s.world.listening) _ ws
        (p.on_hash s.world s.world.hash n i) (Keeps-route_listeners p s.world.listening _)

  timer-Good : (n : ℕ) (s : System) → Good s → Good (timer_at n s)
  unfolding timer_at
  timer-Good zero s g = g
  timer-Good (suc n) s (i, ws) =
      add_run-Good s.pool _ _ ws (p.base.on_timers s.world n i) (Keeps-hide p.base "toast" _)

  module _ (Allowed : Event → Type 0)
      (handlers : (a : Action) (w : World) → Allowed (act a) → Keeps I R (handler_of a) w) where
    pub step-Good : (e : Event) (s : System) → Allowed e → Good s → Good (step e s)
    unfolding step
    step-Good (act a) s h (i, ws) =
        add_run-Good s.pool (handler_of a) s.world ws i (handlers a s.world h)
    step-Good (reply n r) s h g = resume-Good n r s (get_elem? s.pool n) refl g
    step-Good hashchange s h g = route-Good s.world.announced s g
    step-Good timer s h g = timer-Good s.world.timers s g
    step-Good reload s h g =
        if_cases Good s.world.reloading _ s (λ _. start_page-Good s.world g.0) (λ _. g)

    pub run-Good : (es : List Event) (s : System) → All Allowed es → Good s → Good (run es s)
    unfolding run
    run-Good [] s h g = g
    run-Good (e ∷ es) s (h, hs) g = run-Good es (step e s) hs (step-Good e s h g)
