-- ===== src/Retry/Laws.antt =====
-- What Retry does, for every operation, context and timer.
use golectra.Base.{
  sym, subst, if◌then◌else◌, ◌∙◌, ap, refl, length, arith, ◌+◌, ◌≤◌, suc, false, [], Bool-cases,
  ◌∷◌, inr, inl, List, Option-cases, true, Option, none, some, ℕ, ◌≡◌, Bool,
}
use golectra.Domain.{raise, Result-cases, err, ok, Result, Exec, Error}
use golectra.Retry.{failed, retry, attempt, pause, Timer}

module _ {W A : Type 0} (timer : Timer W) (retryable : Error → Bool) (op : Exec W A) where
  -- An invariant `P` of a failed call and of the timer, what each error satisfies (`E`), and a
  -- conclusion `Q` for every way to end.
  module _ {κ} (P : W → Type κ) (E : Error → Type κ) (Q : Result A × W → Type κ)
      (done : (w : W) (a : A) → P w → (op w).0 ≡ ok a → Q (ok a, (op w).1))
      (fail : (w : W) (e : Error) → P w → (op w).0 ≡ err e → P (op w).1 × E e)
      (ended : (w : W) (e : Error) → timer.ctx_err w ≡ some e → E e)
      (waited : (w : W) (d : ℕ) → P w → P (timer.select d w).1)
      (woken : (w : W) (d : ℕ) (e : Error) → (timer.select d w).0 ≡ some e → E e)
      (stop : (w : W) (e : Error) → P w → E e → Q (err e, w)) where
    failed-inv :
        (o : Option Error) (next : Error → Exec W A) (e : Error) (w : W)
        → timer.ctx_err w ≡ o
        → P w
        → ((e' : Error) → e' ≡ e → Q (next e' w))
        → Q (failed timer retryable op o next e w)
    failed-inv none next e w h p n = n e refl
    failed-inv (some c) next e w h p n = stop w c p (ended w c h)

    attempt-inv :
        (next : Error → Exec W A) (w : W)
        → P w
        → ((w' : W) (e : Error) → P w' → E e → Q (next e w'))
        → Q (attempt timer retryable op next w)
    unfolding attempt
    attempt-inv next w p n = elim (Result-cases (op w).0) [
      | inl (a, e) ↦ rw e (done w a p e)
      | inr (x, e) ↦
          let (p', ex) = fail w x p e in
          rw e (
            failed-inv (timer.ctx_err (op w).1) next x (op w).1 refl p'
              (λ e' same. n (op w).1 e' p' (subst E (sym same) ex)))
    ]

    pause-inv :
        (d : ℕ) (rest : Exec W A) (w : W)
        → P w
        → ((w' : W) → P w' → Q (rest w'))
        → Q (pause timer retryable op d rest w)
    unfolding pause
    pause-inv d rest w p n = elim (Option-cases (timer.select d w).0) [
      | inl e ↦ rw e (n (timer.select d w).1 (waited w d p))
      | inr (c, e) ↦ rw e (stop (timer.select d w).1 c (waited w d p) (woken w d c e))
    ]

    pub retry_rule : (delays : List ℕ) (w : W) → P w → Q (retry timer retryable op delays w)
    unfolding retry
    retry_rule [] w p = attempt-inv raise w p stop
    retry_rule (d ∷ delays) w p = attempt-inv _ w p λ w' e p' ex. elim (Bool-cases (retryable e)) [
      | inl again ↦ rw again (
          pause-inv d (retry timer retryable op delays) w' p'
            (λ w'' p''. retry_rule delays w'' p''))
      | inr final ↦ rw final (stop w' e p' ex)
    ]

  -- The rule where nothing is asked of the errors.
  module _ {κ} (P : W → Type κ) (Q : Result A × W → Type κ)
      (done : (w : W) (a : A) → P w → (op w).0 ≡ ok a → Q (ok a, (op w).1))
      (fail : (w : W) (e : Error) → P w → (op w).0 ≡ err e → P (op w).1)
      (waited : (w : W) (d : ℕ) → P w → P (timer.select d w).1)
      (stop : (w : W) (e : Error) → P w → Q (err e, w)) where
    pub retry-inv : (delays : List ℕ) (w : W) → P w → Q (retry timer retryable op delays w)
    retry-inv =
        retry_rule P (λ e. Unit) Q done (λ w e p h. (fail w e p h, tt)) (λ w e h. tt) waited
          (λ w d e h. tt) (λ w e p u. stop w e p)

  same_call : (w : W) (b a : A) → (op w).0 ≡ ok b → ok b ≡ ok a → op w ≡ (ok a, (op w).1)
  same_call w b a e h = ap (λ r. (r, (op w).1)) (e ∙ h)

  -- A result without an error is that of a call of the operation, and nothing happened after it.
  pub retry-ok :
      (delays : List ℕ) (w : W) (a : A)
      → (retry timer retryable op delays w).0 ≡ ok a
      → (w' : W) × (op w' ≡ (ok a, (retry timer retryable op delays w).1))
  retry-ok delays w a h =
      retry-inv (λ w'. Unit {0}) (λ r. r.0 ≡ ok a → (w' : W) × (op w' ≡ (ok a, r.1)))
        (λ w' b p e h'. (w', same_call w' b a e h')) (λ w' e p q. tt) (λ w' d p. tt)
        (λ w' e p h'. absurd (cc h')) delays w tt h

  -- An operation that fails in a live context with an error that is not retryable is called once,
  -- and Retry returns its error without waiting.
  pub retry_final :
      (delays : List ℕ) (w : W) (e : Error)
      → (op w).0 ≡ err e
      → timer.ctx_err (op w).1 ≡ none
      → retryable e ≡ false
      → retry timer retryable op delays w ≡ (err e, (op w).1)
  unfolding retry
  retry_final [] w e h live final = rw (h, live)
  retry_final (d ∷ delays) w e h live final = rw (h, live, final)

  module _ (calls : W → ℕ) (counts : (w : W) → calls (op w).1 ≡ suc (calls w))
      (still : (d : ℕ) (w : W) → calls (timer.select d w).1 ≡ calls w) where
    pause-le :
        (d n : ℕ) (rest : Exec W A) (w : W)
        → ((w' : W) → calls (rest w').1 ≤ calls w' + n)
        → calls (pause timer retryable op d rest w).1 ≤ calls w + n
    unfolding pause
    pause-le d n rest w h = elim (Option-cases (timer.select d w).0) [
      | inl e ↦ rw e (omega (arith, h (timer.select d w).1, still d w))
      | inr (c, e) ↦ rw e (omega (arith, still d w))
    ]

    attempt-le :
        (n : ℕ) (next : Error → Exec W A) (w : W)
        → ((w' : W) (e : Error) → calls (next e w').1 ≤ calls w' + n)
        → calls (attempt timer retryable op next w).1 ≤ suc (calls w) + n
    unfolding attempt
    attempt-le n next w h = elim (Result-cases (op w).0) [
      | inl (a, e) ↦ rw e (omega (arith, counts w))
      | inr (x, e) ↦ elim (Option-cases (timer.ctx_err (op w).1)) [
        | inl live ↦ rw (e, live) (omega (arith, counts w, h (op w).1 x))
        | inr (c, over) ↦ rw (e, over) (omega (arith, counts w))
      ]
    ]

    -- The operation is called at most once more than there are delays.
    pub calls-retry-le :
        (delays : List ℕ) (w : W)
        → calls (retry timer retryable op delays w).1 ≤ calls w + length delays + 1
    unfolding retry
    calls-retry-le [] w =
        let once = attempt-le 0 raise w (λ w' e. omega arith) in omega (arith, once)
    calls-retry-le (d ∷ delays) w =
        let more =
          attempt-le (length delays + 1)
            (λ e.
              if retryable e
              then pause timer retryable op d (retry timer retryable op delays)
              else raise e)
            w
            λ w' e. elim (Bool-cases (retryable e)) [
              | inl again ↦ rw again (
                  pause-le d (length delays + 1) (retry timer retryable op delays) w'
                    (λ w''. omega (arith, calls-retry-le delays w'')))
              | inr final ↦ rw final (omega arith)
            ] in
        omega (arith, more)

    -- An operation that always fails with a retryable error, in a context that does not end, is called
    -- exactly once more than there are delays, and Retry returns its error.
    pub retry_exhausts :
        (delays : List ℕ) (w : W) (e : Error)
        → ((w' : W) → (op w').0 ≡ err e)
        → retryable e ≡ true
        → ((w' : W) → timer.ctx_err w' ≡ none)
        → ((d : ℕ) (w' : W) → (timer.select d w').0 ≡ none)
        → ((retry timer retryable op delays w).0 ≡ err e)
          × (calls (retry timer retryable op delays w).1 ≡ calls w + length delays + 1)
    unfolding retry attempt pause
    retry_exhausts [] w e fails again live waits =
        rw (fails w, live (op w).1) (refl, omega (arith, counts w))
    retry_exhausts (d ∷ delays) w e fails again live waits =
        let w1 = (op w).1 in
        let w2 = (timer.select d w1).1 in
        let (r, n) = retry_exhausts delays w2 e fails again live waits in
        rw (fails w, live w1, again, waits d w1) (r, omega (arith, n, counts w, still d w1))
