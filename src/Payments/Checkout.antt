-- ===== src/Payments/Checkout.antt =====
-- The whole way of a checkout, refused or settled.
use fredoomeaxima.Common.{
  ℕ, ◌+◌, ◌*◌, ◌<◌, ◌≡◌, refl, Bool, true, false, ◌∷◌, none, some, ◌==◌, ==-refl, find, any,
  Option-cases, inl, inr, String,
}
use fredoomeaxima.Exec.{lift, ok, err, or_throw, throw_if, pure, bind_gets, ◌>>=◌, not_found}
use fredoomeaxima.Database.{Db, User, Tariff, Payment, PaymentStatus, SubscriptionSource}
use fredoomeaxima.Database.Tables.{update_where}
use fredoomeaxima.Subscriptions.{day, get_active}
use fredoomeaxima.Subscriptions.Access.{access_end, HasAccess}
use fredoomeaxima.Payments.Webhooks.{paid}
use fredoomeaxima.Payments.Settling.{mark_succeeded_settles, settle-find_payment, settle_access}
use fredoomeaxima.Payments.{
  PaymentProvider, CreatePaymentResult, CreatePaymentParams, description_of, billing_page,
  settle_if, is_succeeded, is_purchasable, find_payment, update_payment, mark_succeeded, checkout,
  is_txn_taken,
}

-- A refused checkout: the tariff is unknown or may not be bought, and nothing is written.
pub checkout_refused :
    {Body : Type 0} (provider : PaymentProvider Body) (web_url : String)
    (now payment_id new_id user_id tariff_id : ℕ) (db : Db)
    → ((t : Tariff) → find (λ t. t.id == tariff_id) db.tariffs ≡ some t → is_purchasable t ≡ false)
    → checkout provider web_url now payment_id new_id user_id tariff_id db
      ≡ (err (not_found "Tariff not available"), db)
unfolding checkout
checkout_refused provider web_url now payment_id new_id user_id tariff_id db h =
    elim (Option-cases (find (λ t. t.id == tariff_id) db.tariffs)) [
      | inl e ↦ rw (e, or_throw) refl
      | inr (t, e) ↦ rw (e, or_throw) (rw (h t e) refl)
    ]

settle_if_settled :
    {A : Type 0} (now new_id payment_id : ℕ) (settled : Bool) (a : A) (db : Db)
    → settled ≡ true
    → ((settle_if settled now new_id payment_id >>= λ _. pure a) db).1
      ≡ (mark_succeeded now new_id payment_id db).1
unfolding settle_if
settle_if_settled now new_id payment_id settled a db e =
    rw (e, settle_if) (bind_gets (mark_succeeded now new_id payment_id) (λ _. a) db)

module _ {Body : Type 0} (provider : PaymentProvider Body) (web_url : String) where
  abbrev pub request : ℕ → Tariff → CreatePaymentParams
  request payment_id t = record {
    payment_id = payment_id;
    amount_cents = t.price_cents;
    currency = t.currency;
    description = description_of t;
    return_url = billing_page web_url;
  }

  abbrev pub opened : ℕ → ℕ → ℕ → Tariff → CreatePaymentResult → Payment
  opened payment_id user_id tariff_id t r = record {
    id = payment_id;
    user_id = user_id;
    tariff_id = some tariff_id;
    amount_cents = t.price_cents;
    currency = t.currency;
    status = PaymentStatus.pending;
    provider = provider.name;
    provider_txn_id = some r.provider_txn_id;
    paid_at = none;
  }

  -- The database when the provider has answered.
  abbrev answered : ℕ → ℕ → ℕ → Tariff → CreatePaymentResult → Db → Db
  answered payment_id user_id tariff_id t r db =
      update_payment payment_id (λ p. record p { provider_txn_id = some r.provider_txn_id })
        (record db {
          payments =
              record (opened payment_id user_id tariff_id t r) { provider_txn_id = none }
              ∷ db.payments;
        })

  find_payment-answered :
      (payment_id user_id tariff_id : ℕ) (t : Tariff) (r : CreatePaymentResult) (db : Db)
      → find_payment payment_id (answered payment_id user_id tariff_id t r db)
        ≡ some (opened payment_id user_id tariff_id t r)
  unfolding find update_where
  find_payment-answered payment_id user_id tariff_id t r db =
      rw (==-refl payment_id) (rw (==-refl payment_id) refl)

  checkout-answered :
      (now payment_id new_id user_id tariff_id : ℕ) (t : Tariff) (r : CreatePaymentResult) (db : Db)
      → find (λ t. t.id == tariff_id) db.tariffs ≡ some t
      → is_purchasable t ≡ true
      → provider.create_payment (request payment_id t) ≡ ok r
      → is_txn_taken r.provider_txn_id db.payments ≡ false
      → r.settled ≡ true
      → (checkout provider web_url now payment_id new_id user_id tariff_id db).1
        ≡ (mark_succeeded now new_id payment_id (answered payment_id user_id tariff_id t r db)).1
  unfolding checkout any
  checkout-answered now payment_id new_id user_id tariff_id t r db h buyable created free settled =
      rw (h, or_throw)
        (rw buyable (
          rw (created, lift)
            (rw (free, throw_if) (settle_if_settled now new_id payment_id r.settled _ _ settled))))

  -- A checkout of a purchasable tariff that the provider settles at once marks the new payment as
  -- succeeded, with the tariff's price, and gives the user the days of the tariff, after the end of
  -- the access that the user had. No payment has the provider's new transaction yet.
  pub checkout_settles :
      (now payment_id new_id user_id tariff_id : ℕ) (t : Tariff) (o : User)
      (r : CreatePaymentResult) (db : Db)
      → find (λ t. t.id == tariff_id) db.tariffs ≡ some t
      → is_purchasable t ≡ true
      → provider.create_payment (request payment_id t) ≡ ok r
      → is_txn_taken r.provider_txn_id db.payments ≡ false
      → r.settled ≡ true
      → find (λ u. u.id == user_id) db.users ≡ some o
      → 0 < t.duration_days
      → let after = (checkout provider web_url now payment_id new_id user_id tariff_id db).1 in
        (find_payment payment_id after ≡ some (paid now (opened payment_id user_id tariff_id t r)))
        × HasAccess now user_id (access_end now user_id db + t.duration_days * day) tariff_id after
  unfolding get_active
  checkout_settles now payment_id new_id user_id tariff_id t o r db h buyable created free settled
        owned days =
      let start = answered payment_id user_id tariff_id t r db in
      let found = find_payment-answered payment_id user_id tariff_id t r db in
      rw
        (
          checkout-answered now payment_id new_id user_id tariff_id t r db h buyable created free
              settled,
          mark_succeeded_settles now new_id payment_id (opened payment_id user_id tariff_id t r)
              start found (unfold is_succeeded in refl),
        )
        (
          settle-find_payment now new_id payment_id (opened payment_id user_id tariff_id t r)
              PaymentStatus.succeeded SubscriptionSource.payment start found,
          (settle_access now new_id tariff_id (opened payment_id user_id tariff_id t r)
              PaymentStatus.succeeded SubscriptionSource.payment start t o refl h owned days).1,
        )
