-- ===== src/Payments/Webhooks.antt =====
-- Notifications of the provider, redelivered or late.
use fredoomeaxima.Common.{
  ℕ, ◌+◌, ◌*◌, ◌<◌, ◌≡◌, refl, ap, sym, subst, ◌∙◌, Bool, true, false, Option, none, some, arith,
  ◌==◌, ==-refl, find, if◌then◌else◌, Option-cases, Bool-cases, inl, inr, ==_iff, find-holds,
}
use fredoomeaxima.Exec.{Exec, Result, ok, err, pure, lift, continue, bind_gets, ◌>>=◌}
use fredoomeaxima.Database.{Db, User, Tariff, Payment, PaymentStatus, SubscriptionSource}
use fredoomeaxima.Database.Tables.{update_where_twice, map_option, find-update_where}
use fredoomeaxima.Subscriptions.{day, get_active}
use fredoomeaxima.Subscriptions.Access.{access_end, HasAccess}
use fredoomeaxima.Payments.Settling.{
  grant_for-payments, mark_succeeded_unknown, mark_succeeded_done, mark_succeeded_twice,
  mark_succeeded_settles, settle_access,
}
use fredoomeaxima.Payments.{
  WebhookVerdict, PaymentProvider, is_succeeded, find_payment, update_payment, settle,
  mark_succeeded, find_by_txn_or_id, has_txn, fail_payment, apply_verdict, settle_webhook,
  handle_webhook,
}

find_by-update_payment :
    (txn id : ℕ) (payment_id : Option ℕ) (f : Payment → Payment) (db : Db)
    → ((r : Payment) → (f r).id ≡ r.id)
    → ((r : Payment) → (f r).provider_txn_id ≡ r.provider_txn_id)
    → find_by_txn_or_id txn payment_id (update_payment id f db)
      ≡ map_option (λ r. if r.id == id then f r else r) (find_by_txn_or_id txn payment_id db)
unfolding find_by_txn_or_id
find_by-update_payment txn id none f db same_id same_txn =
    find-update_where (λ p. has_txn txn p.provider_txn_id) (λ p. p.id == id) f db.payments
      (λ r. ap (has_txn txn) (same_txn r))
find_by-update_payment txn id (some payment_id) f db same_id same_txn =
    find-update_where (λ p. p.id == payment_id) (λ p. p.id == id) f db.payments
      (λ r. ap (λ i. i == payment_id) (same_id r))

abbrev pub paid : ℕ → Payment → Payment
paid now p = record p { status = PaymentStatus.succeeded; paid_at = some now }

abbrev mark_failed : Payment → Payment
mark_failed p = record p { status = PaymentStatus.failed }

find_by-fail_payment :
    (txn : ℕ) (payment_id : Option ℕ) (p : Payment) (db : Db)
    → find_by_txn_or_id txn payment_id db ≡ some p
    → find_by_txn_or_id txn payment_id (fail_payment p.id db).1 ≡ some (mark_failed p)
unfolding fail_payment
find_by-fail_payment txn payment_id p db e =
    find_by-update_payment txn p.id payment_id mark_failed db (λ r. refl) (λ r. refl)
    ∙ rw e (rw (==-refl p.id) refl)

find_by-payments :
    (txn : ℕ) (payment_id : Option ℕ) (db db' : Db)
    → db'.payments ≡ db.payments
    → find_by_txn_or_id txn payment_id db' ≡ find_by_txn_or_id txn payment_id db
unfolding find_by_txn_or_id
find_by-payments txn none db db' e = ap (find (λ p. has_txn txn p.provider_txn_id)) e
find_by-payments txn (some id) db db' e = ap (find (λ p. p.id == id)) e

find_by-settle :
    (now new_id txn : ℕ) (payment_id : Option ℕ) (p q : Payment) (db : Db)
    → find_by_txn_or_id txn payment_id db ≡ some p
    → find_by_txn_or_id txn payment_id
        (settle now new_id q PaymentStatus.succeeded SubscriptionSource.payment db).1
      ≡ some (if p.id == q.id then paid now p else p)
unfolding settle
find_by-settle now new_id txn payment_id p q db h =
    let marked = update_payment q.id (paid now) db in
    let granted = grant_for-payments now new_id q SubscriptionSource.payment q.tariff_id marked in
    find_by-payments txn payment_id marked _ granted
    ∙ find_by-update_payment txn q.id payment_id (paid now) db (λ r. refl) (λ r. refl)
    ∙ rw h refl

same_id : (now : ℕ) (p : Payment) (b : Bool) → (if b then paid now p else p).id ≡ p.id
same_id now p true = refl
same_id now p false = refl

-- After a notification is applied, it finds a payment of the same identifier again.
find_by-mark_succeeded :
    (now new_id txn : ℕ) (payment_id : Option ℕ) (p : Payment) (db : Db)
    → find_by_txn_or_id txn payment_id db ≡ some p
    → (q : Payment) × (find_by_txn_or_id txn payment_id (mark_succeeded now new_id p.id db).1
        ≡ some q)
      × (q.id ≡ p.id)
find_by-mark_succeeded now new_id txn payment_id p db h =
    elim (Option-cases (find_payment p.id db)) [
      | inl e ↦ (p, rw (mark_succeeded_unknown now new_id p.id db e) h, refl)
      | inr (q, e) ↦ elim (Bool-cases (is_succeeded q.status)) [
        | inl done ↦ (p, rw (mark_succeeded_done now new_id p.id q db e done) h, refl)
        | inr open_yet ↦ (
          if p.id == q.id then paid now p else p,
          rw (mark_succeeded_settles now new_id p.id q db e open_yet)
              (find_by-settle now new_id txn payment_id p q db h),
          same_id now p (p.id == q.id),
        )
      ]
    ]

finish_true :
    (r : Result (Unit {0})) (s : Db) (b : Bool)
    → (continue r (λ _. pure true) s).0 ≡ ok b
    → (r ≡ ok tt) × (b ≡ true)
finish_true (ok tt) s b h = (refl, cc)
finish_true (err e) s b h = absurd (ground arith)

-- An action that finds its payment again, and then changes nothing, can be repeated.
apply_twice_at :
    (act act' : Payment → Exec Db (Unit {0})) (look : Db → Option Payment) (o : Option Payment)
    (b : Bool) (db : Db)
    → look db ≡ o
    → ((p : Payment)
        → o ≡ some p
        → (act p db).0 ≡ ok tt
        → (q : Payment) × (look (act p db).1 ≡ some q)
          × (act' q (act p db).1 ≡ (ok tt, (act p db).1)))
    → (apply_verdict act o db).0 ≡ ok b
    → apply_verdict act' (look (apply_verdict act o db).1) (apply_verdict act o db).1
      ≡ (ok b, (apply_verdict act o db).1)
unfolding apply_verdict
apply_twice_at act act' look none b db e keep h = rw (e, apply_verdict) (cc)
apply_twice_at act act' look (some p) b db e keep h =
    let (done, handled) = finish_true (act p db).0 (act p db).1 b h in
    let (q, found, again) = keep p refl done in
    let first : apply_verdict act (some p) db ≡ (ok true, (act p db).1) =
      rw (done, continue) refl in
    rw (first, found, apply_verdict, again) (rw handled refl)

failed_once :
    (db : Db) (id : ℕ) → fail_payment id (fail_payment id db).1 ≡ (ok tt, (fail_payment id db).1)
unfolding fail_payment
failed_once db id =
    ap (λ ps. (ok tt, record db { payments = ps }))
      (update_where_twice (λ p. p.id == id) (λ p. record p { status = PaymentStatus.failed })
        db.payments (λ r. refl) (λ r. refl))

settle_webhook_failed :
    (now new_id txn id : ℕ) (p : Payment) (db : Db)
    → find_payment id db ≡ some p
    → (settle_webhook now new_id (WebhookVerdict.failed txn (some id)) db).1
      ≡ update_payment p.id mark_failed db
unfolding settle_webhook find_by_txn_or_id apply_verdict fail_payment
settle_webhook_failed now new_id txn id p db h = rw (h, apply_verdict) refl

pub settle_webhook_succeeded :
    (now new_id txn id : ℕ) (p : Payment) (db : Db)
    → find_payment id db ≡ some p
    → (settle_webhook now new_id (WebhookVerdict.succeeded txn (some id)) db).1
      ≡ (mark_succeeded now new_id p.id db).1
unfolding settle_webhook find_by_txn_or_id apply_verdict
settle_webhook_succeeded now new_id txn id p db h =
    rw (h, apply_verdict) (bind_gets (mark_succeeded now new_id p.id) (λ _. true) db)

-- A late report of failure: whatever the payment's state was, a failed and then a succeeded
-- notification for it give its user the days of the tariff once more.
pub failed_then_succeeded_extends :
    (now new_id txn id tariff_id : ℕ) (p : Payment) (db : Db) (t : Tariff) (o : User)
    → find_payment id db ≡ some p
    → p.tariff_id ≡ some tariff_id
    → find (λ t. t.id == tariff_id) db.tariffs ≡ some t
    → find (λ u. u.id == p.user_id) db.users ≡ some o
    → 0 < t.duration_days
    → HasAccess now p.user_id
        (access_end now p.user_id db + t.duration_days * day)
        tariff_id
        (settle_webhook now new_id
          (WebhookVerdict.succeeded txn (some id))
          (settle_webhook now new_id (WebhookVerdict.failed txn (some id)) db).1).1
unfolding get_active
failed_then_succeeded_extends now new_id txn id tariff_id p db t o h e known owned days =
    let failed_db = update_payment p.id mark_failed db in
    let found : find_payment id failed_db ≡ some (mark_failed p) =
      find-update_where (λ q. q.id == id) (λ q. q.id == p.id) mark_failed db.payments (λ q. refl)
      ∙ rw h (rw (==-refl p.id) refl) in
    let same : p.id ≡ id = (==_iff _ _).0 (find-holds (λ q. q.id == id) db.payments p h) in
    rw
      (
        settle_webhook_failed now new_id txn id p db h,
        settle_webhook_succeeded now new_id txn id (mark_failed p) failed_db found,
        mark_succeeded_settles now new_id p.id (mark_failed p) failed_db
            (subst (λ i. find_payment i failed_db ≡ some (mark_failed p)) (sym same) found)
            (unfold is_succeeded in refl),
      )
      (settle_access now new_id tariff_id (mark_failed p) PaymentStatus.succeeded
        SubscriptionSource.payment failed_db t o e known owned days).1

settle_webhook_twice :
    (now new_id later id' : ℕ) (v : WebhookVerdict) (b : Bool) (db : Db)
    → (settle_webhook now new_id v db).0 ≡ ok b
    → settle_webhook later id' v (settle_webhook now new_id v db).1
      ≡ (ok b, (settle_webhook now new_id v db).1)
unfolding settle_webhook
settle_webhook_twice now new_id later id' WebhookVerdict.ignored b db h = cc
settle_webhook_twice now new_id later id' (WebhookVerdict.failed txn payment_id) b db h =
    apply_twice_at (λ p. fail_payment p.id) (λ p. fail_payment p.id)
      (find_by_txn_or_id txn payment_id) (find_by_txn_or_id txn payment_id db) b db refl
      (λ p e done. (mark_failed p, find_by-fail_payment txn payment_id p db e, failed_once db p.id))
      h
settle_webhook_twice now new_id later id' (WebhookVerdict.succeeded txn payment_id) b db h =
    apply_twice_at (λ p. mark_succeeded now new_id p.id) (λ p. mark_succeeded later id' p.id)
      (find_by_txn_or_id txn payment_id) (find_by_txn_or_id txn payment_id db) b db refl
      (λ p e done.
        let (q, found, same) = find_by-mark_succeeded now new_id txn payment_id p db e in
        (q, found, rw same (mark_succeeded_twice now new_id later id' p.id db done)))
      h

delivered_twice :
    (now new_id later id' : ℕ) (r : Result WebhookVerdict) (b : Bool) (db : Db)
    → ((lift r >>= settle_webhook now new_id) db).0 ≡ ok b
    → (lift r >>= settle_webhook later id') ((lift r >>= settle_webhook now new_id) db).1
      ≡ (ok b, ((lift r >>= settle_webhook now new_id) db).1)
delivered_twice now new_id later id' (ok verdict) b db h =
    settle_webhook_twice now new_id later id' verdict b db h
delivered_twice now new_id later id' (err e) b db h = absurd (ground (arith, h))

-- Redelivery: a notification that was handled without an error, and on which the adapter comes to
-- the same verdict when it is delivered again, changes nothing the second time, and gets the same
-- answer. The adapter may ask the gateway anew, so each delivery has an adapter of its own; that
-- the verdicts agree is a condition.
pub handle_webhook_twice :
    {Body : Type 0} (first second : PaymentProvider Body) (now new_id later id' : ℕ) (body : Body)
    (b : Bool) (db : Db)
    → second.handle_webhook body ≡ first.handle_webhook body
    → (handle_webhook first now new_id body db).0 ≡ ok b
    → handle_webhook second later id' body (handle_webhook first now new_id body db).1
      ≡ (ok b, (handle_webhook first now new_id body db).1)
unfolding handle_webhook
handle_webhook_twice first second now new_id later id' body b db same h =
    rw same (delivered_twice now new_id later id' (first.handle_webhook body) b db h)
