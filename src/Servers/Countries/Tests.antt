-- ===== src/Servers/Countries/Tests.antt =====
-- Removing a country at the sample tables: Finland has a server, Sweden has none.
use fredoomeaxima.Common.{◌≡◌, refl, [], ◌∷◌, any, find}
use fredoomeaxima.Exec.{ok, err, bad_request}
use fredoomeaxima.Database.{Db, ServerStatus, PaymentStatus}
use fredoomeaxima.Database.Tables.{count}
use fredoomeaxima.Database.Samples.{sample, helsinki, finland}
use fredoomeaxima.Servers.Countries.{remove_country, servers_in, tariffs_with}

abbrev db : Db
db = record (sample PaymentStatus.pending (helsinki ServerStatus.active)) {
  countries = record { id = 4; code = "SE"; name = "Sweden" } ∷ finland ∷ [];
}

finland_stays :
    remove_country 3 db
    ≡ (err (bad_request "Нельзя удалить страну: к ней привязаны серверы или тарифы"), db)
unfolding remove_country find count servers_in tariffs_with any
finland_stays = refl

sweden_goes : (remove_country 4 db).0 ≡ ok tt
unfolding remove_country find count servers_in tariffs_with any
sweden_goes = refl
