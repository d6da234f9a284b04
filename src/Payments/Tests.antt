-- ===== src/Payments/Tests.antt =====
-- The payment theorems at the sample tables, with Ada's payment number 30.
use fredoomeaxima.Common.{any, ◌+◌, ◌*◌, ◌≡◌, refl, arith, true, none, some, find}
use fredoomeaxima.Exec.{ok, continue}
use fredoomeaxima.Database.{Db, ServerStatus, PaymentStatus, SubscriptionSource}
use fredoomeaxima.Database.Samples.{ada, month, sample, helsinki, invoice}
use fredoomeaxima.Subscriptions.{day}
use fredoomeaxima.Subscriptions.Access.{access_end, HasAccess}
use fredoomeaxima.Payments.{
  CreatePaymentResult, PaymentProvider, WebhookVerdict, find_payment, is_succeeded, mark_succeeded,
  mark_manually_paid, settle_webhook, handle_webhook, checkout, apply_verdict, find_by_txn_or_id,
}
use fredoomeaxima.Payments.Settling.{
  mark_succeeded_settles, settle_access, mark_manually_paid_access,
}
use fredoomeaxima.Payments.Webhooks.{handle_webhook_twice, failed_then_succeeded_extends, paid}
use fredoomeaxima.Payments.Checkout.{opened, checkout_settles}
use fredoomeaxima.Payments.Providers.{
  MockBody, mock_provider, Notification, Parsed, YooKassaApi, yookassa_webhook, yookassa_provider,
  verdict_of_parsed, verdict_of_notification, verdict_of_status, yookassa_webhook_verified,
  yookassa_settles_named, mock_webhook, mock_verdict,
}

abbrev db : Db
db = sample PaymentStatus.pending (helsinki ServerStatus.active)

abbrev settled_db : Db
settled_db = sample PaymentStatus.succeeded (helsinki ServerStatus.active)

-- Bodies stand for themselves, and the transaction of payment n is 1000 + n.
abbrev mock : PaymentProvider MockBody
mock = mock_provider some (λ id. 1000 + id)

abbrev paid_body : MockBody
paid_body = record { provider_txn_id = some 99; payment_id = none; status = "succeeded" }

-- The first settlement of the payment succeeds.
settled : (mark_succeeded 1000 21 30 db).0 ≡ ok tt
unfolding find is_succeeded
settled =
    let p = invoice PaymentStatus.pending in
    rw (mark_succeeded_settles 1000 21 30 p db refl refl)
      (settle_access 1000 21 7 p PaymentStatus.succeeded SubscriptionSource.payment db month ada
        refl refl refl (omega arith)).0

handled : (handle_webhook mock 1000 21 paid_body db).0 ≡ ok true
unfolding handle_webhook mock_provider mock_webhook mock_verdict settle_webhook find_by_txn_or_id
    find apply_verdict
handled = rw (settled, continue) refl

mark_manually_paid_access_example :
    (find_payment 30 (mark_manually_paid 1000 21 30 db).1
      ≡ some (record (invoice PaymentStatus.pending) {
        status = PaymentStatus.manual;
        paid_at = some 1000;
      }))
    × HasAccess 1000 1 (access_end 1000 1 db + 30 * day) 7 (mark_manually_paid 1000 21 30 db).1
unfolding find is_succeeded
mark_manually_paid_access_example =
    mark_manually_paid_access 1000 21 30 7 (invoice PaymentStatus.pending) db month ada refl refl
      refl refl refl (omega arith)

handle_webhook_twice_example :
    handle_webhook mock 2000 22 paid_body (handle_webhook mock 1000 21 paid_body db).1
    ≡ (ok true, (handle_webhook mock 1000 21 paid_body db).1)
handle_webhook_twice_example =
    handle_webhook_twice mock mock 1000 21 2000 22 paid_body true db refl handled

failed_then_succeeded_extends_example :
    HasAccess 1000 1
      (access_end 1000 1 settled_db + 30 * day)
      7
      (settle_webhook 1000 21
        (WebhookVerdict.succeeded 99 (some 30))
        (settle_webhook 1000 21 (WebhookVerdict.failed 99 (some 30)) settled_db).1).1
unfolding find
failed_then_succeeded_extends_example =
    failed_then_succeeded_extends 1000 21 99 30 7 (invoice PaymentStatus.succeeded) settled_db month
      ada refl refl refl refl (omega arith)

abbrev answer : CreatePaymentResult
answer = record { provider_txn_id = 1031; confirmation_url = none; settled = true }

checkout_settles_example :
    let after = (checkout mock "https://vpn" 1000 31 21 1 7 db).1 in
    (find_payment 31 after ≡ some (paid 1000 (opened mock "https://vpn" 31 1 7 month answer)))
    × HasAccess 1000 1 (access_end 1000 1 db + 30 * day) 7 after
unfolding find any mock_provider
checkout_settles_example =
    checkout_settles mock "https://vpn" 1000 31 21 1 7 month ada answer db refl refl refl refl refl
      refl (omega arith)

-- A gateway that knows transaction 99 as paid; a body is the notification itself.
abbrev gateway : YooKassaApi Notification
gateway = record {
  parse = Parsed.value;
  amount_text = λ cents. "499.00";
  post_payment = λ request. ok (record { id = 99; status = "pending"; confirmation_url = none });
  get_status = λ txn. ok (some "succeeded");
}

abbrev notice : Notification
notice = record { object_id = some 99; metadata_payment_id = some 30 }

yookassa_webhook_verified_example : gateway.get_status 99 ≡ ok (some "succeeded")
unfolding yookassa_webhook verdict_of_parsed verdict_of_notification verdict_of_status
yookassa_webhook_verified_example = yookassa_webhook_verified gateway notice 99 (some 30) refl

yookassa_settles_named_example :
    let after = (handle_webhook (yookassa_provider gateway) 1000 21 notice db).1 in
    (find_payment 30 after ≡ some (paid 1000 (invoice PaymentStatus.pending)))
    × HasAccess 1000 1 (access_end 1000 1 db + 30 * day) 7 after
unfolding find is_succeeded
yookassa_settles_named_example =
    yookassa_settles_named gateway 1000 21 30 99 7 notice (invoice PaymentStatus.pending) db month
      ada refl refl refl refl refl refl refl (omega arith)
