-- ===== src/Provisioning/Outcomes.antt =====
-- How a run ends.
use fredoomeaxima.Common.{ℕ, ◌≡◌, none, some, ◌⊎◌}
use fredoomeaxima.Exec.{Result, ok, Exec}
use fredoomeaxima.Database.{Db, ProvisionStatus}
use fredoomeaxima.Provisioning.{Session}
use fredoomeaxima.Provisioning.Running.{status_in}

-- The run has failed, or it has succeeded and the install script has exited with 0, or the install
-- script does not end.
abbrev pub IsSettled : Session → ℕ → Db → Type 0
IsSettled session id db =
    (status_in id db ≡ some ProvisionStatus.failed)
    ⊎ (((status_in id db ≡ some ProvisionStatus.success) × (session.exit_code ≡ some (ok (some 0))))
        ⊎ ((status_in id db ≡ some ProvisionStatus.running) × (session.exit_code ≡ none)))

-- The run has not thrown, and has left one of these.
abbrev pub IsReported : Session → ℕ → Result (Unit {0}) × Db → Type 0
IsReported session id outcome = (outcome.0 ≡ ok tt) × IsSettled session id outcome.1
