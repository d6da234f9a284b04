-- ===== src/Payments/Providers.antt =====
-- The adapters of apps/api/src/payments/providers. JSON parsing, the gateway's HTTP API, the random
-- part of a transaction's identifier and the text of an amount are arguments. A body's fields are
-- `none` where they are missing or empty.
use text.Mathlib.Text.{◌==◌ as str_eq}
use text.Mathlib.TextEquality.{eq_iff}
use fredoomeaxima.Common.{
  ℕ, ◌+◌, ◌*◌, ◌<◌, ◌≡◌, sym, subst, ◌==◌, ==_iff, find, find-holds, refl, String, Bool, true,
  false, Option, none, some, arith, if◌then◌else◌,
}
use fredoomeaxima.Exec.{Result, ok, err, internal, lift}
use fredoomeaxima.Database.{Db, User, Tariff, Payment, PaymentStatus, SubscriptionSource}
use fredoomeaxima.Subscriptions.{day, get_active}
use fredoomeaxima.Subscriptions.Access.{access_end, HasAccess}
use fredoomeaxima.Payments.Settling.{mark_succeeded_settles, settle-find_payment, settle_access}
use fredoomeaxima.Payments.Webhooks.{settle_webhook_succeeded, paid}
use fredoomeaxima.Payments.{
  CreatePaymentParams, CreatePaymentResult, WebhookVerdict, PaymentProvider, find_payment,
  mark_succeeded, is_succeeded, handle_webhook,
}

pub record MockBody : Type 0 where
  pub provider_txn_id : Option ℕ
  pub payment_id : Option ℕ
  pub status : String

unfoldable pub mock_verdict : MockBody → Option ℕ → WebhookVerdict
mock_verdict body none = WebhookVerdict.ignored
mock_verdict body (some txn) =
    if str_eq body.status "succeeded"
    then WebhookVerdict.succeeded txn body.payment_id
    else if str_eq body.status "failed"
    then WebhookVerdict.failed txn body.payment_id
    else WebhookVerdict.ignored

unfoldable pub mock_webhook : {Body : Type 0} → (Body → Option MockBody) → Body → WebhookVerdict
unfolding mock_verdict
mock_webhook parse raw = elim (parse raw) [
  | none ↦ WebhookVerdict.ignored
  | some body ↦ mock_verdict body body.provider_txn_id
]

unfoldable pub mock_provider :
    {Body : Type 0} → (Body → Option MockBody) → (ℕ → ℕ) → PaymentProvider Body
unfolding mock_webhook
mock_provider parse txn_of = record {
  name = "mock";
  create_payment = λ params. ok (record {
    provider_txn_id = txn_of params.payment_id;
    confirmation_url = none;
    settled = true;
  });
  handle_webhook = λ raw. ok (mock_webhook parse raw);
}

-- What the adapter reads of a notification, and of the gateway's answer to a new payment.
pub record Notification : Type 0 where
  pub object_id : Option ℕ
  pub metadata_payment_id : Option ℕ

pub record Created : Type 0 where
  pub id : ℕ
  pub status : String
  pub confirmation_url : Option String

pub record PaymentRequest : Type 0 where
  pub amount_value : String
  pub currency : String
  pub capture : Bool
  pub return_url : String
  pub description : String
  pub payment_id : ℕ
  pub idempotence_key : ℕ

-- What `JSON.parse` makes of a body.
pub data Parsed (A : Type 0) : Type 0 where
  malformed null : Parsed A
  value : A → Parsed A

-- The gateway during one call of the adapter: its answers, or the error of a failed call. Another
-- call may find other answers.
pub record YooKassaApi (Body : Type 0) : Type 0 where
  pub parse : Body → Parsed Notification
  pub amount_text : ℕ → String
  pub post_payment : PaymentRequest → Result Created
  pub get_status : ℕ → Result (Option String)

module _ {Body : Type 0} (api : YooKassaApi Body) where
  abbrev created_result : Result Created → Result CreatePaymentResult
  created_result (ok created) = ok (record {
    provider_txn_id = created.id;
    confirmation_url = created.confirmation_url;
    settled = str_eq created.status "succeeded";
  })
  created_result (err e) = err e

  yookassa_create_payment : CreatePaymentParams → Result CreatePaymentResult
  yookassa_create_payment params = created_result (
      api.post_payment (record {
        amount_value = api.amount_text params.amount_cents;
        currency = params.currency;
        capture = true;
        return_url = params.return_url;
        description = params.description;
        payment_id = params.payment_id;
        idempotence_key = params.payment_id;
      }))

  unfoldable pub verdict_of_status : ℕ → Option ℕ → Result (Option String) → WebhookVerdict
  verdict_of_status txn payment_id (err e) = WebhookVerdict.ignored
  verdict_of_status txn payment_id (ok none) = WebhookVerdict.ignored
  verdict_of_status txn payment_id (ok (some status)) =
      if str_eq status "succeeded"
      then WebhookVerdict.succeeded txn payment_id
      else if str_eq status "canceled"
      then WebhookVerdict.failed txn payment_id
      else WebhookVerdict.ignored

  unfoldable pub verdict_of_notification : Notification → Option ℕ → WebhookVerdict
  unfolding verdict_of_status
  verdict_of_notification notification none = WebhookVerdict.ignored
  verdict_of_notification notification (some txn) =
      verdict_of_status txn notification.metadata_payment_id (api.get_status txn)

  -- Reading a field of `null` throws.
  unfoldable pub verdict_of_parsed : Parsed Notification → Result WebhookVerdict
  unfolding verdict_of_notification
  verdict_of_parsed Parsed.malformed = ok WebhookVerdict.ignored
  verdict_of_parsed Parsed.null = err (internal "Cannot read properties of null")
  verdict_of_parsed (Parsed.value notification) =
      ok (verdict_of_notification notification notification.object_id)

  unfoldable pub yookassa_webhook : Body → Result WebhookVerdict
  unfolding verdict_of_parsed
  yookassa_webhook raw = verdict_of_parsed (api.parse raw)

  unfoldable pub yookassa_provider : PaymentProvider Body
  unfolding yookassa_create_payment yookassa_webhook
  yookassa_provider = record {
    name = "yookassa";
    create_payment = yookassa_create_payment;
    handle_webhook = yookassa_webhook;
  }

  verdict_of_status_succeeded :
      (txn t : ℕ) (payment_id q : Option ℕ) (r : Result (Option String))
      → verdict_of_status txn payment_id r ≡ WebhookVerdict.succeeded t q
      → (r ≡ ok (some "succeeded")) × (t ≡ txn)
  unfolding verdict_of_status
  verdict_of_status_succeeded txn t payment_id q (err e) h = ground arith
  verdict_of_status_succeeded txn t payment_id q (ok none) h = ground arith
  verdict_of_status_succeeded txn t payment_id q (ok (some s)) h =
      ground (arith, eq_iff s "succeeded", eq_iff s "canceled")

  verdict_of_notification_succeeded :
      (n : Notification) (object_id : Option ℕ) (t : ℕ) (q : Option ℕ)
      → verdict_of_notification n object_id ≡ WebhookVerdict.succeeded t q
      → api.get_status t ≡ ok (some "succeeded")
  unfolding verdict_of_notification
  verdict_of_notification_succeeded n none t q h = ground arith
  verdict_of_notification_succeeded n (some txn) t q h =
      let both = verdict_of_status_succeeded txn t n.metadata_payment_id q (api.get_status txn) h in
      rw both.1 both.0

  verdict_of_parsed_succeeded :
      (parsed : Parsed Notification) (t : ℕ) (q : Option ℕ)
      → verdict_of_parsed parsed ≡ ok (WebhookVerdict.succeeded t q)
      → api.get_status t ≡ ok (some "succeeded")
  unfolding verdict_of_parsed
  verdict_of_parsed_succeeded Parsed.malformed t q h = absurd (ground (arith, h))
  verdict_of_parsed_succeeded Parsed.null t q h = absurd (ground (arith, h))
  verdict_of_parsed_succeeded (Parsed.value n) t q h =
      verdict_of_notification_succeeded n n.object_id t q (cc h)

  -- A transaction is reported as succeeded only after the gateway itself says so.
  pub yookassa_webhook_verified :
      (raw : Body) (t : ℕ) (q : Option ℕ)
      → yookassa_webhook raw ≡ ok (WebhookVerdict.succeeded t q)
      → api.get_status t ≡ ok (some "succeeded")
  unfolding yookassa_webhook
  yookassa_webhook_verified raw t q h = verdict_of_parsed_succeeded (api.parse raw) t q h

  yookassa_marks_named :
      (now new_id id txn : ℕ) (raw : Body) (p : Payment) (db : Db)
      → api.parse raw
        ≡ Parsed.value (record { object_id = some txn; metadata_payment_id = some id })
      → api.get_status txn ≡ ok (some "succeeded")
      → find_payment id db ≡ some p
      → (handle_webhook yookassa_provider now new_id raw db).1
        ≡ (mark_succeeded now new_id p.id db).1
  unfolding handle_webhook yookassa_provider
  yookassa_marks_named now new_id id txn raw p db parsed confirmed h =
      let verdict : yookassa_webhook raw ≡ ok (WebhookVerdict.succeeded txn (some id)) =
        rw (parsed, yookassa_webhook, verdict_of_parsed) (rw (confirmed, verdict_of_status) refl) in
      rw (verdict, lift) (settle_webhook_succeeded now new_id txn id p db h)

  -- The payment that a notification names is settled on the word of the notification: if the gateway
  -- confirms the notification's transaction, whichever payment that was made for, a named payment
  -- that has not succeeded is marked as succeeded, and its user has access to its tariff until the
  -- end of the access held before and the tariff's days. The tariff and the user exist, and the
  -- tariff has days.
  pub yookassa_settles_named :
      (now new_id id txn tariff_id : ℕ) (raw : Body) (p : Payment) (db : Db) (t : Tariff) (o : User)
      → api.parse raw
        ≡ Parsed.value (record { object_id = some txn; metadata_payment_id = some id })
      → api.get_status txn ≡ ok (some "succeeded")
      → find_payment id db ≡ some p
      → is_succeeded p.status ≡ false
      → p.tariff_id ≡ some tariff_id
      → find (λ t. t.id == tariff_id) db.tariffs ≡ some t
      → find (λ u. u.id == p.user_id) db.users ≡ some o
      → 0 < t.duration_days
      → (find_payment id (handle_webhook yookassa_provider now new_id raw db).1 ≡ some (paid now p))
        × HasAccess now p.user_id
            (access_end now p.user_id db + t.duration_days * day)
            tariff_id
            (handle_webhook yookassa_provider now new_id raw db).1
  unfolding get_active
  yookassa_settles_named now new_id id txn tariff_id raw p db t o parsed confirmed h unpaid e known
        owned days =
      let same : p.id ≡ id = (==_iff _ _).0 (find-holds (λ q. q.id == id) db.payments p h) in
      let found = subst (λ i. find_payment i db ≡ some p) (sym same) h in
      rw
        (
          yookassa_marks_named now new_id id txn raw p db parsed confirmed h,
          mark_succeeded_settles now new_id p.id p db found unpaid,
        )
        (
          settle-find_payment now new_id id p PaymentStatus.succeeded SubscriptionSource.payment db
              h,
          (settle_access now new_id tariff_id p PaymentStatus.succeeded SubscriptionSource.payment
              db t o e known owned days).1,
        )
