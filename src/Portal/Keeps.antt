-- ===== src/Portal/Keeps.antt =====
-- Invariants of asynchronous code: what every segment of a call keeps, whatever happens between
-- the segments, and what each request satisfies in the world in which it is sent.
pub mod Page
pub mod Bodies
pub mod Loaders
pub mod Handlers
pub mod Writes
use the_black_hole.Prelude.{
  String, List, [], ◌∷◌, ◌++◌, Option, none, some, Bool, true, false, All, All-append, ◌≡◌, refl,
  if◌then◌else◌, Bool-cases, inl, inr,
}
use the_black_hole.Portal.Types.{Request, Reply, Body, response, rejected}
use the_black_hole.Portal.World.{World, State, Element}
use the_black_hole.Portal.Task.{
  Task, done, throw, modify, read, fetch, spawn, catch, ◌>>=◌, ◌>>◌, Waiting, advance,
}

-- `K t w`: from the world `w` on, the segments of `t` keep `I`, and its requests satisfy `R`. After a
-- change, and after an `await`, nothing is known of the world but `I`.
module _ (I : World → Type 0) (R : World → Request → Type 0) where
  abbrev pub K : {J A : Type 0} → Task J A → World → Type 0
  K (done a) w = Unit {0}
  K (throw e) w = Unit {0}
  K (modify f t) w = ((v : World) → I v → I (f v)) × ((v : World) → K t v)
  K (read k) w = K (k w) w
  K (fetch r k) w = R w r × ((a : Reply) (v : World) → K (k a) v)
  K (spawn j t) w = (v : World) → K t v

  pub K-bind :
      {J A B : Type 0} (t : Task J A) (f : A → Task J B) (w : World)
      → K t w
      → ((a : A) (v : World) → K (f a) v)
      → K (t >>= f) w
  K-bind (done a) f w h k = k a w
  K-bind (throw e) f w h k = tt
  K-bind (modify g t) f w h k = (h.0, λ v. K-bind t f v (h.1 v) k)
  K-bind (read g) f w h k = K-bind (g w) f w h k
  K-bind (fetch r g) f w h k = (h.0, λ a v. K-bind (g a) f v (h.1 a v) k)
  K-bind (spawn j t) f w h k = λ v. K-bind t f v (h v) k

  pub K-catch :
      {J A : Type 0} (t : Task J A) (f : String → Task J A) (w : World)
      → K t w
      → ((e : String) (v : World) → K (f e) v)
      → K (catch t f) w
  K-catch (done a) f w h k = tt
  K-catch (throw e) f w h k = k e w
  K-catch (modify g t) f w h k = (h.0, λ v. K-catch t f v (h.1 v) k)
  K-catch (read g) f w h k = K-catch (g w) f w h k
  K-catch (fetch r g) f w h k = (h.0, λ a v. K-catch (g a) f v (h.1 a v) k)
  K-catch (spawn j t) f w h k = λ v. K-catch t f v (h v) k

  -- A call that waits keeps the invariant when it goes on.
  abbrev pub WaitsWell : {J : Type 0} → Waiting J → Type 0
  WaitsWell p = (a : Reply) (v : World) → K (p.resume a) v

  abbrev pub EndsWell : {J : Type 0} → World × List (Waiting J) → Type 0
  EndsWell r = I r.0 × All WaitsWell r.1

  module _
      (sending : (w : World) (r : Request)
        → I w
        → R w r
        → I (record w { sent = r ∷ w.sent; held = w.state.token ∷ w.held })) where
    pub advance-EndsWell :
        {J : Type 0} (start : J → World → World × List (Waiting J))
        → ((j : J) (w : World) → I w → EndsWell (start j w))
        → (t : Task J (Unit {0})) (w : World) → I w
        → K t w
        → EndsWell (advance start t w)
    advance-EndsWell start s (done a) w i k = (i, tt)
    advance-EndsWell start s (throw e) w i k = (i, tt)
    advance-EndsWell start s (modify f t) w i k =
        advance-EndsWell start s t (f w) (k.0 w i) (k.1 (f w))
    advance-EndsWell start s (read g) w i k = advance-EndsWell start s (g w) w i k
    advance-EndsWell start s (fetch r g) w i k = (sending w r i k.0, (k.1, tt))
    advance-EndsWell start s (spawn j t) w i k =
        let (i1, p1) = s j w i in
        let (i2, p2) = advance-EndsWell start s t (start j w).0 i1 (k (start j w).0) in
        (i2, All-append WaitsWell (start j w).1 (advance start t (start j w).0).1 p1 p2)

-- The same as a record, which shows its task to `search`.
pub record Keeps (I : World → Type 0) (R : World → Request → Type 0) {J A : Type 0} (t : Task J A)
    (w : World) : Type 0 where
  pub at : K I R t w

module _ {I : World → Type 0} {R : World → Request → Type 0} {J : Type 0} where
  pub Keeps-done : {A : Type 0} (a : A) (w : World) → Keeps I R {J = J} (done a) w
  Keeps-done a w = record { at = tt }

  pub Keeps-throw : {A : Type 0} (e : String) (w : World) → Keeps I R {J = J} {A = A} (throw e) w
  Keeps-throw e w = record { at = tt }

  pub Keeps-read :
      {A : Type 0} (k : World → Task J A) (w : World) → Keeps I R (k w) w → Keeps I R (read k) w
  Keeps-read k w h = record { at = h.at }

  pub Keeps-modify :
      {A : Type 0} (f : World → World) (t : Task J A) (w : World)
      → ((v : World) → I v → I (f v))
      → ((v : World) → Keeps I R t v)
      → Keeps I R (modify f t) w
  Keeps-modify f t w h k = record { at = (h, λ v. (k v).at) }

  pub Keeps-spawn :
      {A : Type 0} (j : J) (t : Task J A) (w : World)
      → ((v : World) → Keeps I R t v)
      → Keeps I R (spawn j t) w
  Keeps-spawn j t w k = record { at = λ v. (k v).at }

  pub Keeps-fetch :
      {A : Type 0} (r : Request) (k : Reply → Task J A) (w : World)
      → R w r
      → ((a : Reply) (v : World) → Keeps I R (k a) v)
      → Keeps I R (fetch r k) w
  Keeps-fetch r k w h g = record { at = (h, λ a v. (g a v).at) }

  pub Keeps-bind :
      {A B : Type 0} (t : Task J A) (f : A → Task J B) (w : World)
      → Keeps I R t w
      → ((a : A) (v : World) → Keeps I R (f a) v)
      → Keeps I R (t >>= f) w
  Keeps-bind t f w h k = record { at = K-bind I R t f w h.at (λ a v. (k a v).at) }

  pub Keeps-catch :
      {A : Type 0} (t : Task J A) (f : String → Task J A) (w : World)
      → Keeps I R t w
      → ((e : String) (v : World) → Keeps I R (f e) v)
      → Keeps I R (catch t f) w
  Keeps-catch t f w h k = record { at = K-catch I R t f w h.at (λ e v. (k e v).at) }

  pub Keeps-if :
      {A : Type 0} (b : Bool) (t u : Task J A) (w : World)
      → Keeps I R t w
      → Keeps I R u w
      → Keeps I R (if b then t else u) w
  Keeps-if true t u w ht hu = ht
  Keeps-if false t u w ht hu = hu

  pub Keeps-option :
      {A B : Type 0} (o : Option B) (t : Task J A) (f : B → Task J A) (w : World)
      → Keeps I R t w
      → ((b : B) → Keeps I R (f b) w)
      → Keeps I R (elim o [ none ↦ t | some b ↦ f b ]) w
  Keeps-option none t f w h k = h
  Keeps-option (some b) t f w h k = k b

pub ruleset keeps_core =
    (Keeps-done, Keeps-throw, Keeps-read, Keeps-spawn, Keeps-bind, Keeps-catch, Keeps-if)
