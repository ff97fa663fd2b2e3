-- ===== src/Server/Choice.antt =====
-- When the server stores into Postgres.
use golectra.Base.{
  eq_iff, arith, inr, inl, sym, ◌==◌, Bool-cases, ap, ◌≢◌, ◌∙◌, refl, ◌≡◌, String, Bool,
}
use golectra.Server.{postgres, build_repo_and_persister, migrated, connected}
use golectra.Config.{ServerConfig}
use golectra.Domain.{Error, Result, ok, err, Exec}
use golectra.Retry.{Timer, retry, default_backoff}
use golectra.Retry.Laws.{retry-ok}

module _ {W : Type 0} (timer : Timer W) (is_retryable : Error → Bool)
    (open_db : String → Exec W (Unit {0})) (ping_and_migrate : Exec W (Unit {0}))
    (restore_file : W → W) where
  migrated-postgres :
      (cfg : ServerConfig) (r : Result (Unit {0}) × W)
      → (migrated timer is_retryable open_db ping_and_migrate restore_file cfg r).0 ≡ postgres
      → (r.0 ≡ ok tt)
        × ((migrated timer is_retryable open_db ping_and_migrate restore_file cfg r).1 ≡ r.1)
  migrated-postgres cfg (ok u, w) h = (refl, refl)
  migrated-postgres cfg (err e, w) h = absurd (cc h)

  connected-postgres :
      (cfg : ServerConfig) (r : Result (Unit {0}) × W)
      → (connected timer is_retryable open_db ping_and_migrate restore_file cfg r).0 ≡ postgres
      → (w' : W) × (ping_and_migrate w'
          ≡ (ok tt, (connected timer is_retryable open_db ping_and_migrate restore_file cfg r).1))
  connected-postgres cfg (err e, w) h = absurd (cc h)
  connected-postgres cfg (ok u, w) h =
      let (done, same) =
        migrated-postgres cfg (retry timer is_retryable ping_and_migrate default_backoff w) h in
      let (w', called) = retry-ok timer is_retryable ping_and_migrate default_backoff w tt done in
      (w', called ∙ ap (λ x. (ok tt, x)) (sym same))

  -- The server stores into Postgres only if a DSN is configured, and if a ping and the migration have
  -- succeeded with nothing done after them; in every other case it stores in memory.
  pub build_repo_and_persister-postgres :
      (cfg : ServerConfig) (w : W)
      → let r =
          build_repo_and_persister timer is_retryable open_db ping_and_migrate restore_file cfg w in
        r.0 ≡ postgres → (cfg.dsn ≢ "") × ((w' : W) × (ping_and_migrate w' ≡ (ok tt, r.1)))
  unfolding build_repo_and_persister
  build_repo_and_persister-postgres cfg w = elim (Bool-cases (cfg.dsn == "")) [
    | inl none_given ↦ rw none_given (λ h. absurd (cc h))
    | inr given ↦ rw given (λ h. (
      (λ e. ground (arith, given, e, eq_iff cfg.dsn "")),
      connected-postgres cfg (open_db cfg.dsn w) h,
    ))
  ]
