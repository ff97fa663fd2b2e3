-- ===== src/Retry.antt =====
-- internal/misc/retry.go. The operation, the context and the timer lie outside: they are functions
-- on a world `W` that they change.
pub mod Laws
mod Tests
use golectra.Domain.{err, pure, ok, raise, Result, Exec, Error}
use golectra.Base.{if◌then◌else◌, none, [], some, ◌∷◌, Bool, ◌*◌, List, Option, ℕ}

-- `ctx_err` is `ctx.Err()`, nil for a live context. `select d` is the select between the context and
-- a timer of `d` nanoseconds: an error if the context ended first.
pub record Timer (W : Type 0) : Type 0 where
  pub ctx_err : W → Option Error
  pub select : ℕ → W → Option Error × W

abbrev pub second : ℕ
second = 1000000000

abbrev pub default_backoff : List ℕ
default_backoff = (1 * second) ∷ (3 * second) ∷ (5 * second) ∷ []

module _ {W A : Type 0} (timer : Timer W) (retryable : Error → Bool) (op : Exec W A) where
  -- a failure with `e`: the context's error if it has ended, else `next`
  abbrev failed : Option Error → (Error → Exec W A) → Error → Exec W A
  failed none next e = next e
  failed (some c) next e = raise c

  -- One call of the operation; `next` is what follows a failure in a live context.
  abbrev settle : Result A → (Error → Exec W A) → Exec W A
  settle (ok a) next = pure a
  settle (err e) next = λ w. failed (timer.ctx_err w) next e w

  unfoldable pub attempt : (Error → Exec W A) → Exec W A
  attempt next w = let (r, w1) = op w in settle r next w1

  -- `rest` after the timer, unless the context ends first
  abbrev resume : Option Error → Exec W A → Exec W A
  resume none rest = rest
  resume (some c) rest = raise c

  unfoldable pub pause : ℕ → Exec W A → Exec W A
  pause d rest w = let (c, w1) = timer.select d w in resume c rest w1

  -- Retry: the delays that are left stand for the index of the loop.
  unfoldable pub retry : List ℕ → Exec W A
  unfolding attempt pause
  retry [] = attempt raise
  retry (d ∷ delays) =
      let rest = pause d (retry delays) in attempt (λ e. if retryable e then rest else raise e)
