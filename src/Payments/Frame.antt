-- ===== src/Payments/Frame.antt =====
-- What paying keeps.
use fredoomeaxima.Common.{ℕ, String, Bool, true, false, Option, none, some}
use fredoomeaxima.Database.{Db, Payment, PaymentStatus, SubscriptionSource}
use fredoomeaxima.Subscriptions.Frame.{grant_or_extend-Keeps}
use fredoomeaxima.Payments.{
  PaymentProvider, WebhookVerdict, grant_for, settle, settle_unless, mark_succeeded,
  mark_manually_paid, settle_if, checkout, apply_verdict, fail_payment, settle_webhook,
  handle_webhook,
}
use fredoomeaxima.Exec.{Exec}
use fredoomeaxima.Exec.Keeps.{Keeps, keeps_rules}
use fredoomeaxima.Database.Frame.{Frame}

module _ (P : Db → Type 0) (frame : Frame P) where
  grant_for-Keeps :
      (now new_id : ℕ) (p : Payment) (source : SubscriptionSource) (tariff : Option ℕ)
      → Keeps P (grant_for now new_id p source tariff)
  unfolding grant_for
  grant_for-Keeps now new_id p source none = search keeps_rules
  grant_for-Keeps now new_id p source (some t) = grant_or_extend-Keeps P frame now new_id _

  settle-Keeps :
      (now new_id : ℕ) (p : Payment) (status : PaymentStatus) (source : SubscriptionSource)
      → Keeps P (settle now new_id p status source)
  unfolding settle
  settle-Keeps now new_id p status source =
      search (keeps_rules, grant_for-Keeps, frame.payments) depth 12

  settle_unless-Keeps :
      (b : Bool) (now new_id : ℕ) (p : Payment) → Keeps P (settle_unless b now new_id p)
  unfolding settle_unless
  settle_unless-Keeps true now new_id p = search keeps_rules
  settle_unless-Keeps false now new_id p = search settle-Keeps

  mark_succeeded-Keeps : (now new_id id : ℕ) → Keeps P (mark_succeeded now new_id id)
  unfolding mark_succeeded
  mark_succeeded-Keeps now new_id id = search (keeps_rules, settle_unless-Keeps) depth 12

  pub mark_manually_paid-Keeps : (now new_id id : ℕ) → Keeps P (mark_manually_paid now new_id id)
  unfolding mark_manually_paid
  mark_manually_paid-Keeps now new_id id = search (keeps_rules, settle-Keeps) depth 12

  settle_if-Keeps : (b : Bool) (now new_id id : ℕ) → Keeps P (settle_if b now new_id id)
  unfolding settle_if
  settle_if-Keeps true now new_id id = mark_succeeded-Keeps now new_id id
  settle_if-Keeps false now new_id id = search keeps_rules

  apply_verdict-Keeps :
      (act : Payment → Exec Db (Unit {0})) (found : Option Payment)
      → ((p : Payment) → Keeps P (act p))
      → Keeps P (apply_verdict act found)
  unfolding apply_verdict
  apply_verdict-Keeps act none keeps = search keeps_rules
  apply_verdict-Keeps act (some p) keeps = search (keeps_rules, keeps) depth 8

  fail_payment-Keeps : (id : ℕ) → Keeps P (fail_payment id)
  unfolding fail_payment
  fail_payment-Keeps id = search (keeps_rules, frame.payments) depth 8

  settle_webhook-Keeps :
      (now new_id : ℕ) (v : WebhookVerdict) → Keeps P (settle_webhook now new_id v)
  unfolding settle_webhook
  settle_webhook-Keeps now new_id WebhookVerdict.ignored = search keeps_rules
  settle_webhook-Keeps now new_id (WebhookVerdict.succeeded txn id) =
      search (keeps_rules, apply_verdict-Keeps, mark_succeeded-Keeps) depth 8
  settle_webhook-Keeps now new_id (WebhookVerdict.failed txn id) =
      search (keeps_rules, apply_verdict-Keeps, fail_payment-Keeps) depth 8

  pub handle_webhook-Keeps :
      {Body : Type 0} (provider : PaymentProvider Body) (now new_id : ℕ) (body : Body)
      → Keeps P (handle_webhook provider now new_id body)
  unfolding handle_webhook
  handle_webhook-Keeps provider now new_id body = search (keeps_rules, settle_webhook-Keeps) depth 8

  pub checkout-Keeps :
      {Body : Type 0} (provider : PaymentProvider Body) (web_url : String)
      (now payment_id new_id user_id tariff_id : ℕ)
      → Keeps P (checkout provider web_url now payment_id new_id user_id tariff_id)
  unfolding checkout
  checkout-Keeps provider web_url now payment_id new_id user_id tariff_id =
      search (keeps_rules, settle_if-Keeps, frame.payments) depth 24
