-- ===== src/Observer/Tests.antt =====
-- A subject whose observers append to a log, and one that fails.
use golectra.Base.{refl, ◌+◌, ◌++◌, ◌≡◌, none, [], some, List, ◌∷◌, ℕ}
use golectra.Observer.{Observer, Subject, attach, publish, tell_all}
use golectra.Domain.{ok, err, other}

abbrev logger : ℕ → Observer (List ℕ) ℕ
logger n = some (λ evt w. (ok tt, w ++ (n + evt) ∷ []))

abbrev failing : Observer (List ℕ) ℕ
failing = some (λ evt w. (err (other "down"), w))

abbrev subject : Subject (List ℕ) ℕ
subject = record { observers = logger 10 ∷ failing ∷ []; on_error = some (λ e w. w ++ 0 ∷ []) }

publish_run : publish (attach (logger 20 ∷ none ∷ []) subject) 1 [] ≡ 11 ∷ 0 ∷ 21 ∷ []
unfolding publish attach tell_all
publish_run = refl
