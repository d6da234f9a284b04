-- ===== src/Servers/Countries/References.antt =====
-- References to countries, by servers and by tariffs, when a country is removed.
use fredoomeaxima.Common.{
  ℕ, ◌≡◌, refl, ◌∙◌, Bool, false, not, ◌||◌, List, [], ◌∷◌, arith, ltb, ◌==◌, any, find, filter,
}
use fredoomeaxima.Exec.{ok}
use fredoomeaxima.Exec.Steps.{or_throw_ok, throw_if_ok}
use fredoomeaxima.Database.{Db}
use fredoomeaxima.Database.Tables.{count}
use fredoomeaxima.Servers.Countries.{servers_in, tariffs_with, remove_country}

module _ {ℓ} {A : Type ℓ} where
  count-none : (p : A → Bool) (rs : List A) → count p rs ≡ 0 → any p rs ≡ false
  unfolding count any
  count-none p [] h = refl
  count-none p (r ∷ rs) h = ground (arith, count-none p rs)

  filter-gone : (p : A → Bool) (rs : List A) → any p (filter (λ r. not (p r)) rs) ≡ false
  unfolding filter any
  filter-gone p [] = refl
  filter-gone p (r ∷ rs) = ground (arith, filter-gone p rs)

unused : (m n : ℕ) → (ltb 0 m || ltb 0 n) ≡ false → (m ≡ 0) × (n ≡ 0)
unused m n h = (ground arith, ground arith)

-- A country that is removed is gone, and no server and no tariff refers to it, before or after;
-- servers and tariffs stay as they were.
pub remove_country_unused :
    (id : ℕ) (db : Db)
    → (remove_country id db).0 ≡ ok tt
    → let after = (remove_country id db).1 in
      (any (λ c. c.id == id) after.countries ≡ false)
      × (any (λ s. s.country_id == id) after.servers ≡ false)
      × (any (λ t. any (λ c. c == id) t.allowed_countries) after.tariffs ≡ false)
      × (after.servers ≡ db.servers)
      × (after.tariffs ≡ db.tariffs)
unfolding remove_country servers_in tariffs_with
remove_country_unused id db h =
    let found = or_throw_ok _ (find (λ c. c.id == id) db.countries) _ db tt h in
    let free =
      throw_if_ok (ltb 0 (servers_in id db) || ltb 0 (tariffs_with id db)) _ _ db tt found.2 in
    let zeros = unused (servers_in id db) (tariffs_with id db) free.0 in
    rw (found.3 ∙ free.2) (
      filter-gone (λ c. c.id == id) db.countries,
      count-none (λ s. s.country_id == id) db.servers zeros.0,
      count-none (λ t. any (λ c. c == id) t.allowed_countries) db.tariffs zeros.1,
      refl,
      refl,
    )
