-- ===== src/Tariffs/Frame.antt =====
-- What editing the tariffs keeps.
use fredoomeaxima.Common.{ℕ}
use fredoomeaxima.Database.{Db}
use fredoomeaxima.Tariffs.{CreateTariffInput, UpdateTariffInput, create, update, archive}
use fredoomeaxima.Exec.Keeps.{Keeps, keeps_rules}
use fredoomeaxima.Database.Frame.{Frame}

module _ (P : Db → Type 0) (frame : Frame P) where
  pub create-Keeps : (new_id : ℕ) (input : CreateTariffInput) → Keeps P (create new_id input)
  unfolding create
  create-Keeps new_id input = search (keeps_rules, frame.tariffs) depth 12

  pub update-Keeps : (id : ℕ) (input : UpdateTariffInput) → Keeps P (update id input)
  unfolding update
  update-Keeps id input = search (keeps_rules, frame.tariffs) depth 12

  pub archive-Keeps : (id : ℕ) → Keeps P (archive id)
  unfolding archive
  archive-Keeps id = search (keeps_rules, frame.tariffs) depth 12
