-- ===== src/Retry/Tests.antt =====
-- Retry on an operation that fails once and then succeeds, and on one that always fails; the world
-- counts the calls.
use golectra.Base.{refl, zero, [], false, none, suc, true, ◌≡◌, ◌∷◌, ℕ, Bool}
use golectra.Retry.{Timer, retry}
use golectra.Retry.Laws.{retry_exhausts}
use golectra.Domain.{Error, ok, err, other, Exec}

abbrev patient : Timer ℕ
patient = record { ctx_err = λ w. none; select = λ d w. (none, w) }

abbrev flaky : Exec ℕ ℕ
flaky zero = (err (other "reset"), 1)
flaky (suc n) = (ok 7, suc (suc n))

abbrev broken : Exec ℕ ℕ
broken n = (err (other "refused"), suc n)

abbrev always : Error → Bool
always e = true

abbrev never : Error → Bool
never e = false

counts_flaky : (w : ℕ) → (flaky w).1 ≡ suc w
counts_flaky zero = refl
counts_flaky (suc n) = refl

retry_exhausts_example :
    ((retry patient always broken (1 ∷ 3 ∷ []) 0).0 ≡ err (other "refused"))
    × ((retry patient always broken (1 ∷ 3 ∷ []) 0).1 ≡ 3)
retry_exhausts_example =
    retry_exhausts patient always broken (λ w. w) (λ w. refl) (λ d w. refl) (1 ∷ 3 ∷ []) 0
      (other "refused") (λ w. refl) refl (λ w. refl) (λ d w. refl)
