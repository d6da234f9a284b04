-- ===== src/Payments.antt =====
-- apps/api/src/payments/payments.service.ts and payment-provider.interface.ts. The provider is an
-- argument; the clock and the identifiers that the database would give to new rows are too.
pub mod Frame
pub mod Providers
pub mod Settling
pub mod Webhooks
pub mod Checkout
mod Tests
use Prim.Native.String.{◌++◌ as text_append}
use fredoomeaxima.Common.{
  take, ℕ, zero, suc, ◌+◌, String, Bool, true, false, ◌&&◌, ◌||◌, not, List, [], ◌∷◌, Option, none,
  some, ltb, leb, ◌==◌, find, filter, any, if◌then◌else◌,
}
use fredoomeaxima.Exec.{
  Error, Result, ok, err, not_found, bad_request, internal, Exec, pure, throw, gets, modify,
  or_throw, throw_if, lift, ◌>>=◌, ◌>>◌,
}
use fredoomeaxima.Database.{Db, Tariff, Payment, PaymentStatus, SubscriptionSource}
use fredoomeaxima.Database.Tables.{update_where}
use fredoomeaxima.Subscriptions.{grant_or_extend}

pub record CreatePaymentParams : Type 0 where
  pub payment_id : ℕ
  pub amount_cents : ℕ
  pub currency : String
  pub description : String
  pub return_url : String

pub record CreatePaymentResult : Type 0 where
  pub provider_txn_id : ℕ
  pub confirmation_url : Option String
  pub settled : Bool

-- A verdict names the provider's transaction and, perhaps, our payment.
pub data WebhookVerdict : Type 0 where
  succeeded failed : ℕ → Option ℕ → WebhookVerdict
  ignored : WebhookVerdict

-- A gateway's adapter during one call, over the type of raw request bodies: an adapter that asks the
-- gateway may come to another verdict on the next delivery of the same body.
pub record PaymentProvider (Body : Type 0) : Type 0 where
  pub name : String
  pub create_payment : CreatePaymentParams → Result CreatePaymentResult
  pub handle_webhook : Body → Result WebhookVerdict

unfoldable pub is_succeeded : PaymentStatus → Bool
is_succeeded PaymentStatus.succeeded = true
is_succeeded PaymentStatus.pending = false
is_succeeded PaymentStatus.failed = false
is_succeeded PaymentStatus.manual = false

abbrev pub find_payment : ℕ → Db → Option Payment
find_payment id db = find (λ p. p.id == id) db.payments

-- `payment.update({ where: { id }, data })`
abbrev pub update_payment : ℕ → (Payment → Payment) → Db → Db
update_payment id f db = record db { payments = update_where (λ p. p.id == id) f db.payments }

-- The grant that follows a settled payment, if it is for a tariff.
pub grant_for : ℕ → ℕ → Payment → SubscriptionSource → Option ℕ → Exec Db (Unit {0})
grant_for now new_id payment source none = pure tt
grant_for now new_id payment source (some tariff_id) = grant_or_extend now new_id (record {
  user_id = payment.user_id;
  tariff_id = tariff_id;
  duration_days = none;
  source = source;
})

pub settle : ℕ → ℕ → Payment → PaymentStatus → SubscriptionSource → Exec Db (Unit {0})
settle now new_id payment status source = do
  modify (update_payment payment.id (λ p. record p { status = status; paid_at = some now }))
  grant_for now new_id payment source payment.tariff_id

pub settle_unless : Bool → ℕ → ℕ → Payment → Exec Db (Unit {0})
settle_unless true now new_id payment = pure tt
settle_unless false now new_id payment =
    settle now new_id payment PaymentStatus.succeeded SubscriptionSource.payment

pub mark_succeeded : ℕ → ℕ → ℕ → Exec Db (Unit {0})
mark_succeeded now new_id payment_id = do
  found ← gets (find_payment payment_id)
  payment ← or_throw (not_found "Payment not found") found
  settle_unless (is_succeeded payment.status) now new_id payment

pub mark_manually_paid : ℕ → ℕ → ℕ → Exec Db (Option Payment)
mark_manually_paid now new_id payment_id = do
  found ← gets (find_payment payment_id)
  payment ← or_throw (not_found "Payment not found") found
  throw_if (is_succeeded payment.status) (bad_request "Payment already succeeded")
  settle now new_id payment PaymentStatus.manual SubscriptionSource.manual
  gets (find_payment payment_id)

pub record CheckoutResult : Type 0 where
  pub payment_id : ℕ
  pub confirmation_url : Option String
  pub settled : Bool

-- Active, public, and not archived.
abbrev pub is_purchasable : Tariff → Bool
is_purchasable t = t.is_active && t.is_public && not t.is_archived

abbrev pub description_of : Tariff → String
description_of tariff = text_append "AximaVPN — " tariff.name

abbrev pub billing_page : String → String
billing_page web_url = text_append web_url "/dashboard/billing"

settle_if : Bool → ℕ → ℕ → ℕ → Exec Db (Unit {0})
settle_if true now new_id payment_id = mark_succeeded now new_id payment_id
settle_if false now new_id payment_id = pure tt

abbrev pub has_txn : ℕ → Option ℕ → Bool
has_txn txn none = false
has_txn txn (some t) = t == txn

-- A payment has this transaction already, which the unique index forbids to a second one.
abbrev pub is_txn_taken : ℕ → List Payment → Bool
is_txn_taken txn payments = any (λ p. has_txn txn p.provider_txn_id) payments

-- `payment_id` and `new_id` are for the payment and for a new subscription.
pub checkout :
    {Body : Type 0}
    → PaymentProvider Body
    → String
    → (now payment_id new_id user_id tariff_id : ℕ) → Exec Db CheckoutResult
checkout provider web_url now payment_id new_id user_id tariff_id = do
  found ← gets (λ db. find (λ t. t.id == tariff_id) db.tariffs)
  tariff ← or_throw (not_found "Tariff not available") found
  throw_if (not (is_purchasable tariff)) (not_found "Tariff not available")
  modify (λ db. record db {
    payments =
        record {
          id = payment_id;
          user_id = user_id;
          tariff_id = some tariff_id;
          amount_cents = tariff.price_cents;
          currency = tariff.currency;
          status = PaymentStatus.pending;
          provider = provider.name;
          provider_txn_id = none;
          paid_at = none;
        }
        ∷ db.payments;
  })
  result ← lift (
      provider.create_payment (record {
        payment_id = payment_id;
        amount_cents = tariff.price_cents;
        currency = tariff.currency;
        description = description_of tariff;
        return_url = billing_page web_url;
      }))
  taken ← gets (λ db. is_txn_taken result.provider_txn_id db.payments)
  throw_if taken (internal "Unique constraint failed")
  modify
      (update_payment payment_id (λ p. record p { provider_txn_id = some result.provider_txn_id }))
  settle_if result.settled now new_id payment_id
  pure (record {
    payment_id = payment_id;
    confirmation_url = result.confirmation_url;
    settled = result.settled;
  })

find_by_txn_or_id : ℕ → Option ℕ → Db → Option Payment
find_by_txn_or_id txn (some payment_id) db = find_payment payment_id db
find_by_txn_or_id txn none db = find (λ p. has_txn txn p.provider_txn_id) db.payments

fail_payment : ℕ → Exec Db (Unit {0})
fail_payment payment_id =
    modify (update_payment payment_id (λ p. record p { status = PaymentStatus.failed }))

-- The result is `handled`.
apply_verdict : (Payment → Exec Db (Unit {0})) → Option Payment → Exec Db Bool
apply_verdict act none = pure false
apply_verdict act (some payment) = do act payment; pure true

pub settle_webhook : ℕ → ℕ → WebhookVerdict → Exec Db Bool
settle_webhook now new_id WebhookVerdict.ignored = pure false
settle_webhook now new_id (WebhookVerdict.succeeded txn payment_id) = do
  found ← gets (find_by_txn_or_id txn payment_id)
  apply_verdict (λ p. mark_succeeded now new_id p.id) found
settle_webhook now new_id (WebhookVerdict.failed txn payment_id) = do
  found ← gets (find_by_txn_or_id txn payment_id)
  apply_verdict (λ p. fail_payment p.id) found

pub handle_webhook : {Body : Type 0} → PaymentProvider Body → (now new_id : ℕ) → Body → Exec Db Bool
handle_webhook provider now new_id body = do
  verdict ← lift (provider.handle_webhook body)
  settle_webhook now new_id verdict

pub list_for_user : ℕ → Db → List Payment
list_for_user user_id db = filter (λ p. p.user_id == user_id) db.payments

-- Without a limit or a cursor, as the controller calls it.
pub list_all : Db → List Payment
list_all db = take 50 db.payments
