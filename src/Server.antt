-- ===== src/Server.antt =====
-- cmd/server/init.go and buildAuditor of cmd/server/main.go: which repository, persister and audit
-- observers the configuration selects. Opening, pinging and migrating the database are parameters.
mod Tests
pub mod Choice
pub mod Saving
use golectra.Base.{
  ◌≢◌, [], ◌⊎◌, ◌&&◌, ◌∷◌, none, ◌==◌, ◌≡◌, some, if◌then◌else◌, Option, String, Bool,
}
use golectra.Config.{ServerConfig}
use golectra.Domain.{Error, Result, ok, err, Exec}
use golectra.Observer.{Observer, Subject, new_subject, attach, set_error_handler}
use golectra.Retry.{Timer, retry, default_backoff}

-- What the server stores into, and whether it has a persister.
pub data Storage : Type 0 where
  postgres : Storage
  memory_and_file : Storage

module _ {W : Type 0} (timer : Timer W) (is_retryable : Error → Bool)
    (open_db : String → Exec W (Unit {0})) (ping_and_migrate : Exec W (Unit {0}))
    (restore_file : W → W) where
  -- `memrepo.New()` and `file.New`, and Restore if it is asked for; its error is only logged
  abbrev pub in_memory : ServerConfig → W → Storage × W
  in_memory cfg w = (memory_and_file, if cfg.restore then restore_file w else w)

  abbrev pub migrated : ServerConfig → Result (Unit {0}) × W → Storage × W
  migrated cfg (ok u, w) = (postgres, w)
  migrated cfg (err e, w) = in_memory cfg w

  abbrev pub connected : ServerConfig → Result (Unit {0}) × W → Storage × W
  connected cfg (ok u, w) =
      migrated cfg (retry timer is_retryable ping_and_migrate default_backoff w)
  connected cfg (err e, w) = in_memory cfg w

  -- buildRepoAndPersister
  unfoldable pub build_repo_and_persister : ServerConfig → W → Storage × W
  build_repo_and_persister cfg w =
      if cfg.dsn == "" then in_memory cfg w else connected cfg (open_db cfg.dsn w)

module _ {W T : Type 0} (file_observer : String → Observer W T)
    (remote_observer : String → Result (Observer W T)) (warn : Error → W → W) where
  abbrev with_file : ServerConfig → Subject W T → Subject W T
  with_file cfg s = if cfg.audit_file == "" then s else attach (file_observer cfg.audit_file ∷ []) s

  -- `logger.Fatal` ends the process, which is an error here
  abbrev with_client : Result (Observer W T) → Subject W T → Result (Option (Subject W T))
  with_client (err e) s = err e
  with_client (ok client) s = ok (some (attach (client ∷ []) s))

  abbrev with_remote : ServerConfig → Subject W T → Result (Option (Subject W T))
  with_remote cfg s =
      if cfg.audit_url == "" then ok (some s) else with_client (remote_observer cfg.audit_url) s

  -- buildAuditor: `none` is nil
  unfoldable pub build_auditor : ServerConfig → Result (Option (Subject W T))
  build_auditor cfg =
      if cfg.audit_file == "" && cfg.audit_url == ""
      then ok none
      else with_remote cfg (with_file cfg (set_error_handler (some warn) (new_subject [])))
