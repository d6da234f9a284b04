-- ===== src/Subscriptions/Tests.antt =====
-- The subscription theorems at the sample tables: Ada, whose subscription ends at 5000, and Bob.
use fredoomeaxima.Common.{◌+◌, ◌*◌, ◌≡◌, refl, arith, none, find, any}
use fredoomeaxima.Exec.{ok}
use fredoomeaxima.Database.{Db, ServerStatus, PaymentStatus, SubscriptionSource}
use fredoomeaxima.Database.Tables.{count}
use fredoomeaxima.Database.Samples.{ada, month, sample, helsinki}
use fredoomeaxima.Subscriptions.{day, Grant, get_active, grant_or_extend, is_due, expire_due}
use fredoomeaxima.Subscriptions.Access.{access_end, HasAccess, grant_or_extend_access}
use fredoomeaxima.Subscriptions.Sweep.{expire_due_sweeps}
use fredoomeaxima.Subscriptions.Isolation.{grant_or_extend-other}

abbrev db : Db
db = sample PaymentStatus.pending (helsinki ServerStatus.active)

abbrev gift : Grant
gift = record {
  user_id = 1;
  tariff_id = 7;
  duration_days = none;
  source = SubscriptionSource.manual;
}

grant_or_extend_access_example :
    ((grant_or_extend 1000 21 gift db).0 ≡ ok tt)
    × HasAccess 1000 1 (access_end 1000 1 db + 30 * day) 7 (grant_or_extend 1000 21 gift db).1
unfolding find
grant_or_extend_access_example =
    grant_or_extend_access 1000 21 gift db month ada refl refl (omega arith)

expire_due_sweeps_example :
    ((expire_due 6000 db).0 ≡ ok (count (is_due 6000) db.subscriptions))
    × (count (is_due 6000) (expire_due 6000 db).1.subscriptions ≡ 0)
    × (get_active 7000 1 (expire_due 6000 db).1 ≡ get_active 7000 1 db)
expire_due_sweeps_example = expire_due_sweeps 6000 7000 1 db (omega arith)

grant_or_extend-other_example :
    get_active 2000 2 (grant_or_extend 1000 21 gift db).1 ≡ get_active 2000 2 db
unfolding any
grant_or_extend-other_example =
    grant_or_extend-other 1000 21 2 gift db (refl, tt) (omega arith) 2000
