-- ===== src/Tariffs/Tests.antt =====
-- Taking the month's tariff off sale.
use fredoomeaxima.Common.{◌≡◌, refl, find, ◌+◌, some}
use fredoomeaxima.Exec.{ok}
use fredoomeaxima.Database.{Db, ServerStatus, PaymentStatus}
use fredoomeaxima.Database.Samples.{sample, helsinki}
use fredoomeaxima.Payments.{PaymentProvider}
use fredoomeaxima.Payments.Providers.{MockBody, mock_provider}
use fredoomeaxima.Tariffs.{archive, get}

abbrev db : Db
db = sample PaymentStatus.succeeded (helsinki ServerStatus.active)

abbrev mock : PaymentProvider MockBody
mock = mock_provider some (λ id. 1000 + id)

archive_ok : (archive 7 db).0 ≡ ok tt
unfolding archive get find
archive_ok = refl
