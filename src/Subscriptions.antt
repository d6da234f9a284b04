-- ===== src/Subscriptions.antt =====
-- apps/api/src/subscriptions/subscriptions.service.ts. The clock and the identifier that the
-- database would give to a new row are arguments.
pub mod Frame
mod Running
pub mod Access
pub mod Sweep
pub mod Isolation
mod Tests
use fredoomeaxima.Common.{
  ℕ, ◌+◌, ◌*◌, String, Bool, true, false, ◌&&◌, List, [], ◌∷◌, Option, none, some, ltb, leb, ◌==◌,
  find, filter, any, if◌then◌else◌, not,
}
use fredoomeaxima.Exec.{
  Error, not_found, internal, Exec, pure, throw, gets, modify, or_throw, throw_if, ◌>>=◌, ◌>>◌,
}
use fredoomeaxima.Database.{Db, User, Tariff, Subscription, SubscriptionStatus, SubscriptionSource}
use fredoomeaxima.Database.Tables.{update_where, count, greatest}

abbrev pub day : ℕ
day = 86400000

unfoldable pub is_active : SubscriptionStatus → Bool
is_active SubscriptionStatus.active = true
is_active SubscriptionStatus.expired = false
is_active SubscriptionStatus.cancelled = false

-- The `where` of `getActive`.
unfoldable pub is_running : ℕ → ℕ → Subscription → Bool
unfolding is_active
is_running now user_id s = s.user_id == user_id && is_active s.status && ltb now s.ends_at

unfoldable pub get_active : ℕ → ℕ → Db → Option Subscription
get_active now user_id db =
    greatest (λ s. s.ends_at) (filter (is_running now user_id) db.subscriptions)

unfoldable pub list_for_user : ℕ → Db → List Subscription
list_for_user user_id db = filter (λ s. s.user_id == user_id) db.subscriptions

pub record Grant : Type 0 where
  pub user_id : ℕ
  pub tariff_id : ℕ
  pub duration_days : Option ℕ
  pub source : SubscriptionSource

abbrev pub days_of : Option ℕ → ℕ → ℕ
days_of none days = days
days_of (some days) _ = days

extend : Subscription → ℕ → ℕ → SubscriptionSource → Db → Db
extend active tariff_id days source db = record db {
  subscriptions =
      update_where (λ s. s.id == active.id)
        (λ s. record s {
          ends_at = active.ends_at + days * day;
          tariff_id = tariff_id;
          source = source;
        })
        db.subscriptions;
}

start : ℕ → ℕ → Grant → ℕ → Db → Db
start now new_id params days db = record db {
  subscriptions =
      record {
        id = new_id;
        user_id = params.user_id;
        tariff_id = params.tariff_id;
        status = SubscriptionStatus.active;
        source = params.source;
        starts_at = now;
        ends_at = now + days * day;
      }
      ∷ db.subscriptions;
}

-- The end of `grantOrExtend`: the active subscription is extended, or a new one starts.
pub grant_from : ℕ → ℕ → Grant → ℕ → Option Subscription → Exec Db (Unit {0})
grant_from now new_id params days none = modify (start now new_id params days)
grant_from now new_id params days (some active) =
    modify (extend active params.tariff_id days params.source)

unfoldable pub grant_or_extend : ℕ → ℕ → Grant → Exec Db (Unit {0})
unfolding grant_from extend start
grant_or_extend now new_id params = do
  found ← gets (λ db. find (λ t. t.id == params.tariff_id) db.tariffs)
  tariff ← or_throw (not_found "Tariff not found") found
  owner ← gets (λ db. find (λ u. u.id == params.user_id) db.users)
  or_throw (not_found "User not found") owner
  active ← gets (get_active now params.user_id)
  grant_from now new_id params (days_of params.duration_days tariff.duration_days) active

unfoldable pub cancel : ℕ → Exec Db (Unit {0})
cancel subscription_id = do
  known ← gets (λ db. any (λ s. s.id == subscription_id) db.subscriptions)
  throw_if (not known) (internal "Record to update not found")
  modify (λ db. record db {
    subscriptions =
        update_where (λ s. s.id == subscription_id)
          (λ s. record s { status = SubscriptionStatus.cancelled }) db.subscriptions;
  })

-- The `where` of `expireDue`.
pub is_due : ℕ → Subscription → Bool
unfolding is_active
is_due now s = is_active s.status && leb s.ends_at now

unfoldable pub expire_due : ℕ → Exec Db ℕ
unfolding is_due
expire_due now = do
  swept ← gets (λ db. count (is_due now) db.subscriptions)
  modify (λ db. record db {
    subscriptions =
        update_where (is_due now) (λ s. record s { status = SubscriptionStatus.expired })
          db.subscriptions;
  })
  pure swept
