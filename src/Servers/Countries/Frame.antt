-- ===== src/Servers/Countries/Frame.antt =====
-- What editing the countries keeps.
use fredoomeaxima.Common.{ℕ, String, Option}
use fredoomeaxima.Database.{Db}
use fredoomeaxima.Servers.Countries.{
  CreateCountryInput, create_country, update_country, remove_country,
}
use fredoomeaxima.Exec.Keeps.{Keeps, keeps_rules}
use fredoomeaxima.Database.Frame.{Frame}

module _ (P : Db → Type 0) (frame : Frame P) where
  pub create_country-Keeps :
      (new_id : ℕ) (input : CreateCountryInput) → Keeps P (create_country new_id input)
  unfolding create_country
  create_country-Keeps new_id input = search (keeps_rules, frame.countries) depth 12

  pub update_country-Keeps :
      (id : ℕ) (code name : Option String) → Keeps P (update_country id code name)
  unfolding update_country
  update_country-Keeps id code name = search (keeps_rules, frame.countries) depth 14

  pub remove_country-Keeps : (id : ℕ) → Keeps P (remove_country id)
  unfolding remove_country
  remove_country-Keeps id = search (keeps_rules, frame.countries) depth 14
