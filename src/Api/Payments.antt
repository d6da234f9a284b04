-- ===== src/Api/Payments.antt =====
-- apps/api/src/payments/payments.controller.ts
use fredoomeaxima.Common.{ℕ, Option}
use fredoomeaxima.Exec.{Exec, pure, gets, ◌>>=◌, ◌>>◌}
use fredoomeaxima.Database.{Db}
use fredoomeaxima.Payments.{checkout, handle_webhook, mark_manually_paid, list_for_user, list_all}
use fredoomeaxima.Audit.{record_action}
use fredoomeaxima.Api.{
  AuthUser, Method, Endpoint, Env, Reply, current_user, for_users, for_admins, for_all, action_on,
}

-- A webhook's body stands for its headers too.
pub data PaymentsCall (Body : Type 0) : Type 0 where
  checkout_for : (tariff_id : ℕ) → PaymentsCall Body
  mine all_payments : PaymentsCall Body
  webhook : Body → PaymentsCall Body
  mark_paid : (id : ℕ) → PaymentsCall Body

unfoldable pub endpoint : {Body : Type 0} → PaymentsCall Body → Endpoint
endpoint (PaymentsCall.checkout_for tariff_id) = for_users Method.post "payments/checkout/:tariffId"
endpoint PaymentsCall.mine = for_users Method.get "payments/mine"
endpoint PaymentsCall.all_payments = for_admins Method.get "admin/payments"
endpoint (PaymentsCall.webhook raw) = for_all Method.post "payments/webhook"
endpoint (PaymentsCall.mark_paid id) = for_admins Method.post "admin/payments/:id/mark-paid"

unfoldable pub handle :
    {Body : Type 0} → Env Body → Option AuthUser → PaymentsCall Body → Exec Db Reply
handle env who (PaymentsCall.checkout_for tariff_id) = do
  user ← current_user who
  result ←
      checkout env.provider env.web_url env.now env.new_id env.new_subscription_id user.id tariff_id
  pure (Reply.checkout result)
handle env who PaymentsCall.mine = do
  user ← current_user who
  rows ← gets (list_for_user user.id)
  pure (Reply.payments rows)
handle env who PaymentsCall.all_payments = do rows ← gets list_all; pure (Reply.payments rows)
handle env who (PaymentsCall.webhook raw) = do
  known ← handle_webhook env.provider env.now env.new_subscription_id raw
  pure (Reply.handled known)
handle env who (PaymentsCall.mark_paid id) = do
  admin ← current_user who
  paid ← mark_manually_paid env.now env.new_subscription_id id
  record_action (action_on admin "payment.mark_paid" "Payment" id)
  pure (Reply.payment paid)
