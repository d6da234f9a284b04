-- ===== src/Users.antt =====
-- apps/api/src/users/users.service.ts: blocking users and what the administrator sees of them.
pub mod Frame
use fredoomeaxima.Common.{ℕ, Bool, true, false, ◌&&◌, List, Option, ◌==◌, filter, take}
use fredoomeaxima.Exec.{not_found, Exec, pure, gets, modify, or_throw, ◌>>=◌, ◌>>◌}
use fredoomeaxima.Database.{Db, User, UserStatus, Subscription, Payment, Peer}
use fredoomeaxima.Database.Tables.{update_where}
use fredoomeaxima.Subscriptions.{get_active}
use fredoomeaxima.Servers.{peer_is_active}
use fredoomeaxima.Auth.{is_blocked, find_user, revoke_all_for_user}

-- A user with the rows that belong to it; the limit of twenty payments is kept, the order is not.
pub record Card : Type 0 where
  pub user : User
  pub subscriptions : List Subscription
  pub payments : List Payment
  pub peers : List Peer

pub get_card : ℕ → Exec Db Card
get_card user_id = do
  found ← gets (find_user user_id)
  user ← or_throw (not_found "User not found") found
  subscriptions ← gets (λ db. filter (λ s. s.user_id == user_id) db.subscriptions)
  payments ← gets (λ db. take 20 (filter (λ p. p.user_id == user_id) db.payments))
  peers ← gets (λ db. filter (λ p. p.user_id == user_id && peer_is_active p.status) db.peers)
  pure (record { user = user; subscriptions = subscriptions; payments = payments; peers = peers })

pub get_active_subscription : ℕ → ℕ → Db → Option Subscription
get_active_subscription now user_id db = get_active now user_id db

-- `if (status === BLOCKED) revokeAllForUser`
unfoldable pub revoke_if : Bool → ℕ → Exec Db (Unit {0})
revoke_if true user_id = revoke_all_for_user user_id
revoke_if false user_id = pure tt

unfoldable pub set_status : ℕ → UserStatus → Exec Db (Unit {0})
unfolding revoke_if is_blocked
set_status user_id status = do
  found ← gets (find_user user_id)
  or_throw (not_found "User not found") found
  modify (λ db. record db {
    users = update_where (λ u. u.id == user_id) (λ u. record u { status = status }) db.users;
  })
  revoke_if (is_blocked status) user_id
