-- ===== src/Observer/Laws.antt =====
-- Who is told of an event, in which order, and what a failing observer changes.
use golectra.Domain.{Error}
use golectra.Base.{refl, [], ◌∷◌, ◌++◌, ◌≡◌, List, Option}
use golectra.Observer.{tell, Observer, Subject, attach, publish, tell_all}

module _ {W T : Type 0} where
  tell_all-append :
      (h : Option (Error → W → W)) (xs ys : List (Observer W T)) (evt : T) (w : W)
      → tell_all h (xs ++ ys) evt w ≡ tell_all h ys evt (tell_all h xs evt w)
  unfolding tell_all
  tell_all-append h [] ys evt w = refl
  tell_all-append h (x ∷ xs) ys evt w = tell_all-append h xs ys evt (tell h x evt w)

  -- After Attach an event goes to the observers that were there, and then to the new ones, under the
  -- same error handler.
  pub publish-attach :
      (s : Subject W T) (observers : List (Observer W T)) (evt : T) (w : W)
      → publish (attach observers s) evt w
        ≡ publish (record s { observers = observers }) evt (publish s evt w)
  unfolding publish attach
  publish-attach s observers evt w = tell_all-append s.on_error s.observers observers evt w
