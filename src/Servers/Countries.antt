-- ===== src/Servers/Countries.antt =====
-- apps/api/src/servers/servers.service.ts: the catalogue of countries.
pub mod Frame
pub mod References
mod Tests
use fredoomeaxima.Common.{
  ℕ, String, Bool, false, not, ◌&&◌, ◌||◌, ◌∷◌, Option, none, some, ltb, ◌==◌, find, filter, any,
}
use text.Mathlib.Text.{◌==◌ as str_eq}
use fredoomeaxima.Exec.{
  Error, not_found, bad_request, Exec, gets, modify, or_throw, throw_if, ◌>>=◌, ◌>>◌,
}
use fredoomeaxima.Database.{Db, Country}
use fredoomeaxima.Database.Tables.{update_where, count}
use fredoomeaxima.Servers.{given}

abbrev has_code : String → Country → Bool
has_code code c = str_eq c.code code

pub record CreateCountryInput : Type 0 where
  pub code : String
  pub name : String

abbrev code_taken : Error
code_taken = bad_request "Страна с таким кодом уже существует"

-- The unique constraint on the code is the database's P2002, which the service translates.
pub create_country : ℕ → CreateCountryInput → Exec Db (Unit {0})
create_country new_id input = do
  taken ← gets (λ db. any (has_code input.code) db.countries)
  throw_if taken code_taken
  modify (λ db. record db {
    countries = record { id = new_id; code = input.code; name = input.name } ∷ db.countries;
  })

taken_by_other : ℕ → Option String → Db → Bool
taken_by_other id none db = false
taken_by_other id (some code) db = any (λ c. has_code code c && not (c.id == id)) db.countries

pub update_country : ℕ → Option String → Option String → Exec Db (Unit {0})
update_country id code name = do
  found ← gets (λ db. find (λ c. c.id == id) db.countries)
  or_throw (not_found "Country not found") found
  taken ← gets (taken_by_other id code)
  throw_if taken code_taken
  modify (λ db. record db {
    countries =
        update_where (λ c. c.id == id)
          (λ c. record c { code = given code c.code; name = given name c.name }) db.countries;
  })

-- The servers in a country, and the tariffs that allow it.
servers_in : ℕ → Db → ℕ
servers_in id db = count (λ s. s.country_id == id) db.servers

tariffs_with : ℕ → Db → ℕ
tariffs_with id db = count (λ t. any (λ c. c == id) t.allowed_countries) db.tariffs

pub remove_country : ℕ → Exec Db (Unit {0})
unfolding servers_in tariffs_with
remove_country id = do
  found ← gets (λ db. find (λ c. c.id == id) db.countries)
  or_throw (not_found "Country not found") found
  servers ← gets (servers_in id)
  tariffs ← gets (tariffs_with id)
  throw_if (ltb 0 servers || ltb 0 tariffs)
      (bad_request "Нельзя удалить страну: к ней привязаны серверы или тарифы")
  modify (λ db. record db { countries = filter (λ c. not (c.id == id)) db.countries })
