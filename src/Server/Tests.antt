-- ===== src/Server/Tests.antt =====
-- The start of a server whose database answers at the second attempt; the world counts the attempts.
use golectra.Base.{zero, suc, refl, none, String, Bool, true, ◌≡◌, ℕ}
use golectra.Server.{postgres, build_repo_and_persister}
use golectra.Config.{ServerConfig}
use golectra.Domain.{Error, ok, err, other, Exec}
use golectra.Retry.{Timer, retry, attempt, pause}

abbrev patient : Timer ℕ
patient = record { ctx_err = λ w. none; select = λ d w. (none, w) }

abbrev cfg : ServerConfig
cfg = record {
  address = ":8080";
  file = "metrics-db.json";
  dsn = "postgres://db";
  key = "";
  interval = 0;
  restore = true;
  audit_file = "";
  audit_url = "";
}

abbrev slow_db : Exec ℕ (Unit {0})
slow_db zero = (err (other "refused"), 1)
slow_db (suc n) = (ok tt, suc (suc n))

abbrev always : Error → Bool
always e = true

abbrev opened : String → Exec ℕ (Unit {0})
opened dsn w = (ok tt, w)

chosen : (build_repo_and_persister patient always opened slow_db (λ w. w) cfg 0).0 ≡ postgres
unfolding build_repo_and_persister retry attempt pause
chosen = refl
