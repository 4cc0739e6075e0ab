-- ===== src/Portal/Task.antt =====
-- Asynchronous code as a value: what a call does up to its next `await`, and how it goes on with
-- the reply. `J` names the asynchronous functions that it calls without awaiting them.
use the_black_hole.Prelude.{String, List, [], ◌∷◌, ◌++◌}
use the_black_hole.Portal.Types.{Request, Reply}
use the_black_hole.Portal.World.{World}

pub data Task (J A : Type 0) : Type 0 where
  done : A → Task J A
  throw : String → Task J A
  modify : (World → World) → Task J A → Task J A
  read : (World → Task J A) → Task J A
  fetch : Request → (Reply → Task J A) → Task J A
  spawn : J → Task J A → Task J A

module _ {J A B : Type 0} where
  infixl 5 ◌>>=◌
  abbrev pub ◌>>=◌ : Task J A → (A → Task J B) → Task J B
  done a >>= f = f a
  throw e >>= f = throw e
  modify g t >>= f = modify g (t >>= f)
  read k >>= f = read (λ w. k w >>= f)
  fetch r k >>= f = fetch r (λ a. k a >>= f)
  spawn j t >>= f = spawn j (t >>= f)

module _ {J B : Type 0} where
  infixl 5 ◌>>◌
  abbrev pub ◌>>◌ : Task J (Unit {0}) → Task J B → Task J B
  t >> u = t >>= λ _. u

-- `try { t } catch (e) { h(e.message) }`
module _ {J A : Type 0} where
  abbrev pub catch : Task J A → (String → Task J A) → Task J A
  catch (done a) h = done a
  catch (throw e) h = h e
  catch (modify g t) h = modify g (catch t h)
  catch (read k) h = read (λ w. catch (k w) h)
  catch (fetch r k) h = fetch r (λ a. catch (k a) h)
  catch (spawn j t) h = spawn j (catch t h)

-- A call that waits for the reply to a request that it sent.
pub record Waiting (J : Type 0) : Type 0 where
  pub request : Request
  pub resume : Reply → Task J (Unit {0})

module _ {J : Type 0} where
  -- Run up to the first `await`. `start` says what a call of another function does up to there.
  -- An exception that nothing catches ends the call, as a rejected promise that nobody awaits.
  abbrev pub advance :
      (J → World → World × List (Waiting J)) → Task J (Unit {0}) → World → World × List (Waiting J)
  advance start (done _) w = (w, [])
  advance start (throw e) w = (w, [])
  advance start (modify g t) w = advance start t (g w)
  advance start (read k) w = advance start (k w) w
  advance start (fetch r k) w = (
    record w { sent = r ∷ w.sent; held = w.state.token ∷ w.held },
    record { request = r; resume = k } ∷ [],
  )
  advance start (spawn j t) w =
      let (w', now) = start j w in let (w'', later) = advance start t w' in (w'', now ++ later)
