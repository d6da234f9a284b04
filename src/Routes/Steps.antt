-- ===== src/Routes/Steps.antt =====
-- Sequences of the operations that write the route tables.
use fredoomeaxima.Common.{ℕ, String, Bool, List, [], ◌∷◌}
use fredoomeaxima.Database.{Db}
use fredoomeaxima.Routes.{
  UpsertRouteGroupInput, Dns, upsert_group, set_enabled, resolve_and_publish,
}

-- What the route tables say: their operations, in any order and with any answers of the DNS.
pub data Step : Type 0 where
  upserts : ℕ → UpsertRouteGroupInput → Step
  enables : String → Bool → Step
  resolves : Dns → ℕ → Step

abbrev pub step : Step → Db → Db
step (Step.upserts new_id input) db = (upsert_group new_id input db).1
step (Step.enables key is_enabled) db = (set_enabled key is_enabled db).1
step (Step.resolves resolve4 new_id) db = (resolve_and_publish resolve4 new_id db).1

abbrev pub steps : List Step → Db → Db
steps [] db = db
steps (s ∷ ss) db = steps ss (step s db)
