-- ===== src/Subscriptions/Sweep.antt =====
-- `expireDue`, the hourly sweep.
use fredoomeaxima.Common.{ℕ, ◌≤◌, ◌≡◌, refl, ap, List, [], ◌∷◌, arith, filter}
use fredoomeaxima.Exec.{ok}
use fredoomeaxima.Database.{Db, Subscription, SubscriptionStatus}
use fredoomeaxima.Database.Tables.{update_where, count, greatest}
use fredoomeaxima.Subscriptions.{is_running, get_active, is_due, expire_due}

-- Sweeping never ends a subscription that still runs: what is active at `later` stays so.
filter_swept :
    (now later u : ℕ) (rs : List Subscription)
    → now ≤ later
    → filter
        (is_running later u)
        (update_where (is_due now) (λ s. record s { status = SubscriptionStatus.expired }) rs)
      ≡ filter (is_running later u) rs
unfolding filter update_where is_due is_running
filter_swept now later u [] h = refl
filter_swept now later u (r ∷ rs) h = ground (arith, filter_swept now later u rs h)

count_swept :
    (now : ℕ) (rs : List Subscription)
    → count
        (is_due now)
        (update_where (is_due now) (λ s. record s { status = SubscriptionStatus.expired }) rs)
      ≡ 0
unfolding count update_where is_due
count_swept now [] = refl
count_swept now (r ∷ rs) = ground (arith, count_swept now rs)

-- A sweep leaves no due subscription active, returns how many it changed, and takes access away
-- from nobody: at the time of the sweep and later, every user's active subscription is as before.
pub expire_due_sweeps :
    (now later u : ℕ) (db : Db)
    → now ≤ later
    → ((expire_due now db).0 ≡ ok (count (is_due now) db.subscriptions))
      × (count (is_due now) (expire_due now db).1.subscriptions ≡ 0)
      × (get_active later u (expire_due now db).1 ≡ get_active later u db)
unfolding expire_due get_active
expire_due_sweeps now later u db h = (
  refl,
  count_swept now db.subscriptions,
  ap (greatest (λ s. s.ends_at)) (filter_swept now later u db.subscriptions h),
)
