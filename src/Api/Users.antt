-- ===== src/Api/Users.antt =====
-- apps/api/src/users/users.controller.ts, but for the paged listing.
use fredoomeaxima.Common.{ℕ, Option}
use fredoomeaxima.Exec.{Exec, pure, gets, ◌>>=◌, ◌>>◌}
use fredoomeaxima.Database.{Db, UserStatus, SubscriptionSource}
use fredoomeaxima.Subscriptions.{get_active, list_for_user, grant_or_extend}
use fredoomeaxima.Users.{get_card, set_status}
use fredoomeaxima.Audit.{record_action}
use fredoomeaxima.Api.{
  AuthUser, Method, Endpoint, Env, Reply, current_user, for_users, for_admins, action_on,
}

pub data UsersCall : Type 0 where
  my_overview my_subscriptions : UsersCall
  card block unblock : (id : ℕ) → UsersCall
  grant : (id tariff_id : ℕ) → (duration_days : Option ℕ) → UsersCall

unfoldable pub endpoint : UsersCall → Endpoint
endpoint UsersCall.my_overview = for_users Method.get "me/overview"
endpoint UsersCall.my_subscriptions = for_users Method.get "me/subscriptions"
endpoint (UsersCall.card id) = for_admins Method.get "admin/users/:id"
endpoint (UsersCall.block id) = for_admins Method.post "admin/users/:id/block"
endpoint (UsersCall.unblock id) = for_admins Method.post "admin/users/:id/unblock"
endpoint (UsersCall.grant id tariff_id duration_days) =
    for_admins Method.post "admin/users/:id/subscription"

unfoldable pub handle : {Body : Type 0} → Env Body → Option AuthUser → UsersCall → Exec Db Reply
handle env who UsersCall.my_overview = do
  user ← current_user who
  active ← gets (get_active env.now user.id)
  pure (Reply.subscription active)
handle env who UsersCall.my_subscriptions = do
  user ← current_user who
  rows ← gets (list_for_user user.id)
  pure (Reply.subscriptions rows)
handle env who (UsersCall.card id) = do found ← get_card id; pure (Reply.card found)
handle env who (UsersCall.block id) = do
  admin ← current_user who
  set_status id UserStatus.blocked
  record_action (action_on admin "user.block" "User" id)
  pure Reply.done
handle env who (UsersCall.unblock id) = do
  admin ← current_user who
  set_status id UserStatus.active
  record_action (action_on admin "user.unblock" "User" id)
  pure Reply.done
handle env who (UsersCall.grant id tariff_id duration_days) = do
  admin ← current_user who
  grant_or_extend env.now env.new_subscription_id (record {
    user_id = id;
    tariff_id = tariff_id;
    duration_days = duration_days;
    source = SubscriptionSource.manual;
  })
  record_action (action_on admin "subscription.grant" "User" id)
  pure Reply.done
