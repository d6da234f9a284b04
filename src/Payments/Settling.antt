-- ===== src/Payments/Settling.antt =====
-- Marking a payment as paid, by the provider or by hand.
use fredoomeaxima.Common.{
  ℕ, ◌+◌, ◌*◌, ◌<◌, ◌≡◌, refl, ap, ◌∙◌, true, false, Option, none, some, ◌==◌, find, Option-cases,
  Bool-cases, inl, inr, ==-refl,
}
use fredoomeaxima.Exec.{ok, err, or_throw, not_found, bad_request, bind_gets}
use fredoomeaxima.Database.{Db, User, Tariff, Payment, PaymentStatus, SubscriptionSource}
use fredoomeaxima.Database.Tables.{find-update_where}
use fredoomeaxima.Subscriptions.{day, get_active}
use fredoomeaxima.Subscriptions.Access.{access_end, HasAccess, grant_or_extend_access}
use fredoomeaxima.Subscriptions.Isolation.{grant_or_extend-payments}
use fredoomeaxima.Payments.{
  is_succeeded, find_payment, update_payment, grant_for, settle, settle_unless, mark_succeeded,
  mark_manually_paid,
}

pub grant_for-payments :
    (now new_id : ℕ) (p : Payment) (source : SubscriptionSource) (o : Option ℕ) (db : Db)
    → (grant_for now new_id p source o db).1.payments ≡ db.payments
unfolding grant_for
grant_for-payments now new_id p source none db = refl
grant_for-payments now new_id p source (some t) db = grant_or_extend-payments now new_id _ db

pub settle-find_payment :
    (now new_id id : ℕ) (p : Payment) (status : PaymentStatus) (source : SubscriptionSource)
    (db : Db)
    → find_payment id db ≡ some p
    → find_payment id (settle now new_id p status source db).1
      ≡ some (record p { status = status; paid_at = some now })
unfolding settle
settle-find_payment now new_id id p status source db h =
    let paid : Payment → Payment = λ q. record q { status = status; paid_at = some now } in
    let found =
      find-update_where (λ q. q.id == id) (λ q. q.id == p.id) paid db.payments (λ q. refl) in
    rw (grant_for-payments now new_id p source p.tariff_id (update_payment p.id paid db))
      (found ∙ rw h (rw (==-refl p.id) refl))

pub mark_succeeded_done :
    (now new_id id : ℕ) (p : Payment) (db : Db)
    → find_payment id db ≡ some p
    → is_succeeded p.status ≡ true
    → mark_succeeded now new_id id db ≡ (ok tt, db)
unfolding mark_succeeded settle_unless
mark_succeeded_done now new_id id p db h e = rw (h, or_throw) (rw e refl)

-- A payment in any other state is settled.
pub mark_succeeded_settles :
    (now new_id id : ℕ) (p : Payment) (db : Db)
    → find_payment id db ≡ some p
    → is_succeeded p.status ≡ false
    → mark_succeeded now new_id id db
      ≡ settle now new_id p PaymentStatus.succeeded SubscriptionSource.payment db
unfolding mark_succeeded settle_unless
mark_succeeded_settles now new_id id p db h e = rw (h, or_throw) (rw e refl)

mark_succeeded-find_payment :
    (now new_id id : ℕ) (p : Payment) (db : Db)
    → find_payment id db ≡ some p
    → (q : Payment) × (find_payment id (mark_succeeded now new_id id db).1 ≡ some q)
      × (is_succeeded q.status ≡ true)
mark_succeeded-find_payment now new_id id p db h = elim (Bool-cases (is_succeeded p.status)) [
  | inl e ↦ (p, rw (mark_succeeded_done now new_id id p db h e) h, e)
  | inr e ↦ (
    record p { status = PaymentStatus.succeeded; paid_at = some now },
    rw (mark_succeeded_settles now new_id id p db h e) (
        settle-find_payment now new_id id p PaymentStatus.succeeded SubscriptionSource.payment db
          h),
    unfold is_succeeded in refl,
  )
]

pub mark_succeeded_unknown :
    (now new_id id : ℕ) (db : Db)
    → find_payment id db ≡ none
    → mark_succeeded now new_id id db ≡ (err (not_found "Payment not found"), db)
unfolding mark_succeeded
mark_succeeded_unknown now new_id id db e = rw (e, or_throw) refl

-- Marking a payment as succeeded again, whenever that is, changes nothing more.
pub mark_succeeded_twice :
    (now new_id later id' payment_id : ℕ) (db : Db)
    → (mark_succeeded now new_id payment_id db).0 ≡ ok tt
    → mark_succeeded later id' payment_id (mark_succeeded now new_id payment_id db).1
      ≡ (ok tt, (mark_succeeded now new_id payment_id db).1)
mark_succeeded_twice now new_id later id' payment_id db h =
    elim (Option-cases (find_payment payment_id db)) [
      | inl e ↦ absurd (cc (ap (λ r. r.0) (mark_succeeded_unknown now new_id payment_id db e)))
      | inr (p, e) ↦
          let (q, found, done) = mark_succeeded-find_payment now new_id payment_id p db e in
          mark_succeeded_done later id' payment_id q _ found done
    ]

grant_for_access :
    (now new_id tariff_id : ℕ) (p : Payment) (source : SubscriptionSource) (granted : Option ℕ)
    (db : Db) (t : Tariff) (o : User)
    → granted ≡ some tariff_id
    → find (λ t. t.id == tariff_id) db.tariffs ≡ some t
    → find (λ u. u.id == p.user_id) db.users ≡ some o
    → 0 < t.duration_days
    → ((grant_for now new_id p source granted db).0 ≡ ok tt)
      × HasAccess now p.user_id
          (access_end now p.user_id db + t.duration_days * day)
          tariff_id
          (grant_for now new_id p source granted db).1
unfolding grant_for
grant_for_access now new_id tariff_id p source granted db t o e known owned h =
    rw (e, grant_for) (grant_or_extend_access now new_id _ db t o known owned h)

-- What settling a payment for a tariff gives its user: the tariff's days, after the end of the
-- access that the user has.
pub settle_access :
    (now new_id tariff_id : ℕ) (p : Payment) (status : PaymentStatus) (source : SubscriptionSource)
    (db : Db) (t : Tariff) (o : User)
    → p.tariff_id ≡ some tariff_id
    → find (λ t. t.id == tariff_id) db.tariffs ≡ some t
    → find (λ u. u.id == p.user_id) db.users ≡ some o
    → 0 < t.duration_days
    → ((settle now new_id p status source db).0 ≡ ok tt)
      × HasAccess now p.user_id
          (access_end now p.user_id db + t.duration_days * day)
          tariff_id
          (settle now new_id p status source db).1
unfolding settle get_active
settle_access now new_id tariff_id p status source db t o e known owned h =
    grant_for_access now new_id tariff_id p source p.tariff_id
      (update_payment p.id (λ q. record q { status = status; paid_at = some now }) db) t o e known
      owned h

-- Marking as paid by hand is refused for a succeeded payment, and then changes nothing.
pub mark_manually_paid_refused :
    (now new_id id : ℕ) (p : Payment) (db : Db)
    → find_payment id db ≡ some p
    → is_succeeded p.status ≡ true
    → mark_manually_paid now new_id id db ≡ (err (bad_request "Payment already succeeded"), db)
unfolding mark_manually_paid
mark_manually_paid_refused now new_id id p db h e = rw (h, or_throw) (rw e refl)

mark_manually_paid_settles :
    (now new_id id : ℕ) (p : Payment) (db : Db)
    → find_payment id db ≡ some p
    → is_succeeded p.status ≡ false
    → (mark_manually_paid now new_id id db).1
      ≡ (settle now new_id p PaymentStatus.manual SubscriptionSource.manual db).1
unfolding mark_manually_paid
mark_manually_paid_settles now new_id id p db h e =
    rw (h, or_throw) (rw e (bind_gets (settle now new_id p _ _) (find_payment id) db))

-- Marking a payment as paid by hand, where it is not refused, gives its user the days of the tariff
-- and leaves the payment marked.
pub mark_manually_paid_access :
    (now new_id id tariff_id : ℕ) (p : Payment) (db : Db) (t : Tariff) (o : User)
    → find_payment id db ≡ some p
    → is_succeeded p.status ≡ false
    → p.tariff_id ≡ some tariff_id
    → find (λ t. t.id == tariff_id) db.tariffs ≡ some t
    → find (λ u. u.id == p.user_id) db.users ≡ some o
    → 0 < t.duration_days
    → (find_payment id (mark_manually_paid now new_id id db).1
        ≡ some (record p { status = PaymentStatus.manual; paid_at = some now }))
      × HasAccess now p.user_id
          (access_end now p.user_id db + t.duration_days * day)
          tariff_id
          (mark_manually_paid now new_id id db).1
mark_manually_paid_access now new_id id tariff_id p db t o h e f known owned days =
    rw (mark_manually_paid_settles now new_id id p db h e) (
      settle-find_payment now new_id id p PaymentStatus.manual SubscriptionSource.manual db h,
      (settle_access now new_id tariff_id p PaymentStatus.manual SubscriptionSource.manual db t o f
          known owned days).1,
    )
