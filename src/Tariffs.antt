-- ===== src/Tariffs.antt =====
-- apps/api/src/tariffs/tariffs.service.ts: the catalogue of tariffs.
pub mod Frame
pub mod Archive
mod Tests
use fredoomeaxima.Common.{
  ℕ, String, Bool, true, false, not, ◌&&◌, List, [], ◌∷◌, Option, none, some, ◌==◌, find, filter,
  any, all, if◌then◌else◌,
}
use fredoomeaxima.Exec.{
  Error, Result, ok, err, not_found, internal, Exec, pure, gets, modify, or_throw, throw_if, ◌>>=◌,
  ◌>>◌,
}
use fredoomeaxima.Database.{Db, Tariff}
use fredoomeaxima.Database.Tables.{update_where}

-- The catalogue that users see; its order by price is not modelled.
pub list_active : Db → List Tariff
list_active db = filter (λ t. t.is_active && t.is_public && not t.is_archived) db.tariffs

pub list_all : Db → List Tariff
list_all db = filter (λ t. not t.is_archived) db.tariffs

pub get : ℕ → Exec Db Tariff
get id = do
  found ← gets (λ db. find (λ t. t.id == id) db.tariffs)
  or_throw (not_found "Tariff not found") found

pub record CreateTariffInput : Type 0 where
  pub name : String
  pub price_cents : ℕ
  pub currency : String
  pub duration_days : ℕ
  pub device_limit : ℕ
  pub is_active : Bool
  pub is_public : Bool
  pub country_ids : List ℕ

-- Countries are connected only if they all exist.
abbrev all_known : List ℕ → Db → Bool
all_known ids db = all (λ id. any (λ c. c.id == id) db.countries) ids

pub create : ℕ → CreateTariffInput → Exec Db (Unit {0})
create new_id input = do
  known ← gets (all_known input.country_ids)
  throw_if (not known) (internal "Record to connect not found")
  modify (λ db. record db {
    tariffs =
        record {
          id = new_id;
          name = input.name;
          price_cents = input.price_cents;
          currency = input.currency;
          duration_days = input.duration_days;
          device_limit = input.device_limit;
          is_active = input.is_active;
          is_public = input.is_public;
          is_archived = false;
          allowed_countries = input.country_ids;
        }
        ∷ db.tariffs;
  })

-- `Partial<CreateTariffInput>`
pub record UpdateTariffInput : Type 0 where
  pub name : Option String
  pub price_cents : Option ℕ
  pub currency : Option String
  pub duration_days : Option ℕ
  pub device_limit : Option ℕ
  pub is_active : Option Bool
  pub is_public : Option Bool
  pub country_ids : Option (List ℕ)

-- A field that is `undefined` is left as it was.
abbrev given {ℓ} : {A : Type ℓ} → Option A → A → A
given none a = a
given (some b) a = b

apply_update : UpdateTariffInput → Tariff → Tariff
apply_update input t = record t {
  name = given input.name t.name;
  price_cents = given input.price_cents t.price_cents;
  currency = given input.currency t.currency;
  duration_days = given input.duration_days t.duration_days;
  device_limit = given input.device_limit t.device_limit;
  is_active = given input.is_active t.is_active;
  is_public = given input.is_public t.is_public;
  allowed_countries = given input.country_ids t.allowed_countries;
}

pub update : ℕ → UpdateTariffInput → Exec Db (Unit {0})
unfolding get apply_update
update id input = do
  get id
  known ← gets (all_known (given input.country_ids []))
  throw_if (not known) (internal "Record to connect not found")
  modify
      (λ db. record db { tariffs = update_where (λ t. t.id == id) (apply_update input) db.tariffs })

pub archive : ℕ → Exec Db (Unit {0})
unfolding get
archive id = do
  get id
  modify (λ db. record db {
    tariffs = update_where (λ t. t.id == id) (λ t. record t { is_archived = true }) db.tariffs;
  })
