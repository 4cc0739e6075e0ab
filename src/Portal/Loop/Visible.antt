-- ===== src/Portal/Loop/Visible.antt =====
-- What the router leaves visible.
use the_black_hole.Prelude.{
  String, List, [], ◌∷◌, Option, none, some, true, false, ◌≡◌, ◌≢◌, ◌⊎◌, inl, inr, refl, sym, ap,
  ◌∙◌, subst, ◌===◌, ◌<>◌, if_cases, eq_iff, eq_refl, some-injective,
}
use the_black_hole.Portal.World.{World, Element, Dom, put, change, change_all}
use the_black_hole.Portal.Task.{Task, Waiting, advance, done, throw, modify, ◌>>=◌}
use the_black_hole.Portal.Page.{on_element, set_text, show, if_present}
use the_black_hole.Portal.Loop.{launch, run_handler}
use the_black_hole.Portal.Router.{clear_views, show_view}

abbrev pub IsListed : String → List String → Type 0
IsListed id [] = ⊥
IsListed id (s ∷ ss) = (id ≡ s) ⊎ IsListed id ss

-- The element, if there is one, is hidden.
abbrev pub IsHidden : String → Dom → Type 0
IsHidden id dom = (e : Element) → dom id ≡ some e → e.hidden ≡ true

-- A change that hides an element, or leaves it hidden, or changes another one.
put-IsHidden :
    (id j : String) (d : Element) (dom : Dom)
    → (id ≡ j → d.hidden ≡ true)
    → IsHidden id dom
    → IsHidden id (put j d dom)
put-IsHidden id j d dom h q =
    if_cases (λ o. (e : Element) → o ≡ some e → e.hidden ≡ true) (id === j) (some d) (dom id)
      (λ t e same. ap (λ x. x.hidden) (sym (some-injective _ _ same)) ∙ h ((eq_iff id j).0 t))
      (λ _. q)

change_at : (o : Option Element) → String → (Element → Element) → Dom → Dom
change_at o j f dom = elim o [ none ↦ dom | some d ↦ put j (f d) dom ]

change_at-IsHidden :
    (id j : String) (f : Element → Element) (dom : Dom) (o : Option Element)
    → dom j ≡ o
    → (id ≡ j → (d : Element) → d.hidden ≡ true → (f d).hidden ≡ true)
    → IsHidden id dom
    → IsHidden id (change_at o j f dom)
unfolding change_at
change_at-IsHidden id j f dom none s h q = q
change_at-IsHidden id j f dom (some d) s h q =
    put-IsHidden id j (f d) dom (λ e. h e d (q d (ap dom e ∙ s))) q

change-IsHidden :
    (id j : String) (f : Element → Element) (dom : Dom)
    → (id ≡ j → (d : Element) → d.hidden ≡ true → (f d).hidden ≡ true)
    → IsHidden id dom
    → IsHidden id (change j f dom)
unfolding change_at
change-IsHidden id j f dom = change_at-IsHidden id j f dom (dom j) refl

change_all-IsHidden :
    (id : String) (js : List String) (f : Element → Element) (dom : Dom)
    → ((d : Element) → d.hidden ≡ true → (f d).hidden ≡ true)
    → IsHidden id dom
    → IsHidden id (change_all js f dom)
change_all-IsHidden id [] f dom h q = q
change_all-IsHidden id (j ∷ js) f dom h q =
    change_all-IsHidden id js f (change j f dom) h (change-IsHidden id j f dom (λ _. h) q)

-- An element that is hidden itself is hidden afterwards.
hide_at-IsHidden :
    (id : String) (dom : Dom) (o : Option Element)
    → dom id ≡ o
    → IsHidden id (change_at o id (λ e. record e { hidden = true }) dom)
unfolding change_at
hide_at-IsHidden id dom none s = λ e same. cc
hide_at-IsHidden id dom (some d) s =
    if_cases (λ o. (e : Element) → o ≡ some e → e.hidden ≡ true) (id === id)
      (some (record d { hidden = true })) (dom id)
      (λ t e same. ap (λ x. x.hidden) (sym (some-injective _ _ same)))
      (λ f. let t = eq_refl id in cc)

hide_all-IsHidden :
    (id : String) (js : List String) (dom : Dom)
    → IsListed id js
    → IsHidden id (change_all js (λ e. record e { hidden = true }) dom)
unfolding change_at
hide_all-IsHidden id [] dom l = elim l [ ]
hide_all-IsHidden id (j ∷ js) dom (inl same) =
    change_all-IsHidden id js _ _ (λ _ _. refl)
      (subst (λ k. IsHidden id (change k (λ e. record e { hidden = true }) dom)) same
        (hide_at-IsHidden id dom (dom id) refl))
hide_all-IsHidden id (j ∷ js) dom (inr l) = hide_all-IsHidden id js _ l

clear_views-IsHidden :
    (id : String) (w : World) → IsListed id w.sections → IsHidden id (clear_views w).dom
unfolding clear_views
clear_views-IsHidden id w l =
    change_all-IsHidden id w.navs _ _ (λ _ h. h) (hide_all-IsHidden id w.sections w.dom l)

module _ {J : Type 0} (start : J → World → World × List (Waiting J)) (id : String) where
  -- A task that does not show the element.
  Leaves : Task J (Unit {0}) → Type 0
  Leaves t = (w : World) → IsHidden id w.dom → IsHidden id (advance start t w).0.dom

  -- A change of an element that may be missing.
  abbrev assign : Option Element → String → (Element → Element) → Task J (Unit {0})
  assign o j f = elim o [
    | none ↦ throw "Cannot set properties of null"
    | some _ ↦ modify (λ v. record v { dom = change j f v.dom }) (done tt)
  ]

  module _ (j : String) (f : Element → Element)
      (safe : id ≡ j → (d : Element) → d.hidden ≡ true → (f d).hidden ≡ true) where
    assign_last : (o : Option Element) → Leaves (assign o j f)
    unfolding Leaves
    assign_last none w h = h
    assign_last (some e) w h = change-IsHidden id j f w.dom safe h

    assign_then :
        (o : Option Element) (k : Task J (Unit {0})) → Leaves k → Leaves (assign o j f >>= λ _. k)
    unfolding Leaves
    assign_then none k l w h = h
    assign_then (some e) k l w h =
        l (record w { dom = change j f w.dom }) (change-IsHidden id j f w.dom safe h)

    assign_both :
        (o : Option Element) (r k : Task J (Unit {0}))
        → Leaves (r >>= λ _. k)
        → Leaves ((assign o j f >>= λ _. r) >>= λ _. k)
    unfolding Leaves
    assign_both none r k l w h = h
    assign_both (some e) r k l w h =
        l (record w { dom = change j f w.dom }) (change-IsHidden id j f w.dom safe h)

  present_last :
      (o : Option Element) (t : Task J (Unit {0}))
      → Leaves t
      → Leaves (elim o [ none ↦ done tt | some _ ↦ t ])
  unfolding Leaves
  present_last none t l w h = h
  present_last (some e) t l w h = l w h

  present_then :
      (o : Option Element) (t k : Task J (Unit {0}))
      → Leaves (t >>= λ _. k)
      → Leaves k
      → Leaves (elim o as (λ _. Task J (Unit {0})) [ none ↦ done tt | some _ ↦ t ] >>= λ _. k)
  unfolding Leaves
  present_then none t k l m w h = m w h
  present_then (some e) t k l m w h = l w h

-- After the router has cleared the views and shown one, every section of the page other than that of
-- the shown view is hidden, whatever was visible before and whether the view exists or not.
pub show_view-IsHidden :
    (name id : String) (w : World)
    → IsListed id w.sections
    → id ≢ "view-" <> name
    → IsHidden id (run_handler (show_view name) (clear_views w)).0.dom
unfolding run_handler show_view on_element set_text show if_present Leaves
show_view-IsHidden name id w l n =
    let nav : Leaves launch id (
        if_present ("nav-" <> name)
          (on_element ("nav-" <> name) (λ e. record e { active = true }))) =
      λ v h.
        present_last launch id (v.dom ("nav-" <> name)) _
          (λ u i.
            assign_last launch id ("nav-" <> name) (λ e. record e { active = true })
              (λ _ d hid. hid) (u.dom ("nav-" <> name)) u i)
          v h in
    present_then launch id ((clear_views w).dom ("view-" <> name)) _ _
      (λ v h.
        assign_both launch id ("view-" <> name) (λ e. record e { hidden = false })
          (λ same. absurd (n same)) (v.dom ("view-" <> name)) _ _
          (λ u i.
            assign_then launch id "page-title" _ (λ _ d hid. hid) (u.dom "page-title") _ nav u i)
          v h)
      nav (clear_views w) (clear_views-IsHidden id w l)
