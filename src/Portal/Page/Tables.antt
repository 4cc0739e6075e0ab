-- ===== src/Portal/Page/Tables.antt =====
-- A table's body after rows were appended to it.
use the_black_hole.Prelude.{
  String, List, [], ◌∷◌, ◌++◌, map, none, some, ◌≡◌, refl, sym, ap, ◌∙◌, eq_refl,
}
use mathlib.Core.List.{append-nil, append_assoc}
use the_black_hole.Portal.World.{World, Element, Node, Dom, put, change}
use the_black_hole.Portal.Task.{Task, done, throw, modify, catch, Waiting, advance, ◌>>◌}
use the_black_hole.Portal.Page.{on_element, clear, append, append_all}

change_found :
    (id : String) (f : Element → Element) (dom : Dom) (e : Element)
    → dom id ≡ some e
    → change id f dom id ≡ some (f e)
change_found id f dom e h =
    ap (λ o. (elim o as (λ _. Dom) [ none ↦ dom | some d ↦ put id (f d) dom ]) id) h
    ∙ rw (eq_refl id) refl

module _ {J : Type 0} (start : J → World → World × List (Waiting J))
    (h : String → Task J (Unit {0})) where
  -- An assignment to a present element, under `catch`, and what follows.
  element_then :
      (id : String) (f : Element → Element) (k : Task J (Unit {0})) (w : World) (e : Element)
      → w.dom id ≡ some e
      → advance start (catch (on_element id f >> k) h) w
        ≡ advance start (catch k h) (record w { dom = change id f w.dom })
  unfolding on_element
  element_then id f k w e i =
      ap
        (λ o.
          advance start
            (catch
              ((elim o as (λ _. Task J (Unit {0})) [
                | none ↦ throw "Cannot set properties of null"
                | some _ ↦ modify (λ v. record v { dom = change id f v.dom }) (done tt)
              ])
                >> k)
              h)
            w)
        i

  append_all_content :
      (id : String) (ss : List String) (w : World) (e : Element)
      → w.dom id ≡ some e
      → (advance start (catch (append_all id ss) h) w).0.dom id
        ≡ some (record e { content = e.content ++ map Node.row ss })
  unfolding append_all append
  append_all_content id [] w e i =
      i ∙ ap (λ c. some (record e { content = c })) (sym (append-nil e.content))
  append_all_content id (s ∷ ss) w e i =
      let grow = λ (d : Element). record d { content = d.content ++ Node.row s ∷ [] } in
      ap (λ r. r.0.dom id) (element_then id grow (append_all id ss) w e i)
      ∙ append_all_content id ss (record w { dom = change id grow w.dom }) (grow e)
          (change_found id grow w.dom e i)
      ∙ ap (λ c. some (record e { content = c }))
          (append_assoc e.content (Node.row s ∷ []) (map Node.row ss))

  -- A body that is cleared and filled has the new rows only.
  pub refill_content :
      (id : String) (ss : List String) (w : World) (e : Element)
      → w.dom id ≡ some e
      → (advance start (catch (clear id >> append_all id ss) h) w).0.dom id
        ≡ some (record e { content = map Node.row ss })
  unfolding clear
  refill_content id ss w e i =
      let empty = λ (d : Element). record d { content = [] } in
      ap (λ r. r.0.dom id) (element_then id empty (append_all id ss) w e i)
      ∙ append_all_content id ss (record w { dom = change id empty w.dom }) (empty e)
          (change_found id empty w.dom e i)

  append_all_state :
      (id : String) (ss : List String) (w : World) (e : Element)
      → w.dom id ≡ some e
      → (advance start (catch (append_all id ss) h) w).0.state ≡ w.state
  unfolding append_all append
  append_all_state id [] w e i = refl
  append_all_state id (s ∷ ss) w e i =
      let grow = λ (d : Element). record d { content = d.content ++ Node.row s ∷ [] } in
      ap (λ r. r.0.state) (element_then id grow (append_all id ss) w e i)
      ∙ append_all_state id ss (record w { dom = change id grow w.dom }) (grow e)
          (change_found id grow w.dom e i)

  -- Filling a body leaves `STATE` alone.
  pub refill_state :
      (id : String) (ss : List String) (w : World) (e : Element)
      → w.dom id ≡ some e
      → (advance start (catch (clear id >> append_all id ss) h) w).0.state ≡ w.state
  unfolding clear
  refill_state id ss w e i =
      let empty = λ (d : Element). record d { content = [] } in
      ap (λ r. r.0.state) (element_then id empty (append_all id ss) w e i)
      ∙ append_all_state id ss (record w { dom = change id empty w.dom }) (empty e)
          (change_found id empty w.dom e i)
