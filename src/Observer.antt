-- ===== src/Observer.antt =====
-- pkg/observer/subject.go: a subject and its observers. An observer is nil, or a call that changes a
-- world `W` and may return an error. A receiver is never nil.
pub mod Laws
mod Tests
use golectra.Domain.{err, ok, Result, pure, Error, Exec}
use golectra.Base.{[], some, ◌∷◌, ◌++◌, none, List, Option}

-- Observer[T]: `none` is nil
abbrev pub Observer : Type 0 → Type 0 → Type 0
Observer W T = Option (T → Exec W (Unit {0}))

-- ObserverFunc.Notify: a nil function does nothing
unfoldable pub notify_func : {W T : Type 0} → Option (T → Exec W (Unit {0})) → T → Exec W (Unit {0})
notify_func none evt = pure tt
notify_func (some f) evt = f evt

-- `on_error` is nil or the error handler, which changes the world.
pub record Subject (W T : Type 0) : Type 0 where
  pub observers : List (Observer W T)
  pub on_error : Option (Error → W → W)

-- `if err := obs.Notify(ctx, evt); err != nil && errHandler != nil { errHandler(err) }`
abbrev pub handle : {W : Type 0} → Option (Error → W → W) → Result (Unit {0}) × W → W
handle on_error (ok u, w) = w
handle none (err e, w) = w
handle (some h) (err e, w) = h e w

module _ {W T : Type 0} where
  -- NewSubject
  unfoldable pub new_subject : List (Observer W T) → Subject W T
  new_subject observers = record { observers = observers; on_error = none }

  abbrev pub tell : Option (Error → W → W) → Observer W T → T → W → W
  tell on_error none evt w = w
  tell on_error (some obs) evt w = handle on_error (obs evt w)

  unfoldable pub tell_all : Option (Error → W → W) → List (Observer W T) → T → W → W
  tell_all on_error [] evt w = w
  tell_all on_error (obs ∷ rest) evt w = tell_all on_error rest evt (tell on_error obs evt w)

  -- Publish, on the observers and the handler that it copies under the lock
  unfoldable pub publish : Subject W T → T → W → W
  unfolding tell_all
  publish s evt w = tell_all s.on_error s.observers evt w

  -- Attach
  unfoldable pub attach : List (Observer W T) → Subject W T → Subject W T
  attach observers s = record s { observers = s.observers ++ observers }

  -- SetErrorHandler
  unfoldable pub set_error_handler : Option (Error → W → W) → Subject W T → Subject W T
  set_error_handler fn s = record s { on_error = fn }
