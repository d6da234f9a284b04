-- ===== src/Api/Router/Entries.antt =====
-- The actions that the log names, and what a handler's success leaves in it.
use fredoomeaxima.Common.{ℕ, ◌≡◌, ap, String, true, false, List, ◌∷◌, Option, none, some, arith}
use fredoomeaxima.Exec.{Error, ok, err, Exec, pure, ◌>>=◌, ◌>>◌}
use fredoomeaxima.Exec.Steps.{bind_ok}
use fredoomeaxima.Database.{Db, AdminAction}
use fredoomeaxima.Database.Tables.{OfSome}
use fredoomeaxima.Audit.{record_action}
use fredoomeaxima.Api.{AuthUser, Env, Reply}
use fredoomeaxima.Api.Users.{UsersCall}
use fredoomeaxima.Api.Payments.{PaymentsCall}
use fredoomeaxima.Api.Tariffs.{TariffsCall}
use fredoomeaxima.Api.Peers.{PeersCall}
use fredoomeaxima.Api.Routes.{RoutesCall}
use fredoomeaxima.Api.Servers.{ServersCall}
use fredoomeaxima.Api.Router.{Call, handle_of}

-- The newest entry of the log is for this administrator and this action.
abbrev pub IsLogged : ℕ → String → Db → Type 0
IsLogged admin_id action db =
    (entry : AdminAction) × (rest : List AdminAction) × (db.admin_actions ≡ entry ∷ rest)
    × (entry.admin_id ≡ admin_id)
    × (entry.action ≡ action)

-- The writes of administrators that the log names, with their actions.
abbrev pub action_of : {Body : Type 0} → Call Body → Option String
action_of (Call.auth c) = none
action_of (Call.users UsersCall.my_overview) = none
action_of (Call.users UsersCall.my_subscriptions) = none
action_of (Call.users (UsersCall.card id)) = none
action_of (Call.users (UsersCall.block id)) = some "user.block"
action_of (Call.users (UsersCall.unblock id)) = some "user.unblock"
action_of (Call.users (UsersCall.grant id tariff_id duration_days)) = some "subscription.grant"
action_of (Call.payments (PaymentsCall.checkout_for tariff_id)) = none
action_of (Call.payments PaymentsCall.mine) = none
action_of (Call.payments PaymentsCall.all_payments) = none
action_of (Call.payments (PaymentsCall.webhook raw)) = none
action_of (Call.payments (PaymentsCall.mark_paid id)) = some "payment.mark_paid"
action_of (Call.tariffs TariffsCall.active_tariffs) = none
action_of (Call.tariffs TariffsCall.all_tariffs) = none
action_of (Call.tariffs (TariffsCall.create dto)) = some "tariff.create"
action_of (Call.tariffs (TariffsCall.update id dto)) = some "tariff.update"
action_of (Call.tariffs (TariffsCall.remove id)) = some "tariff.archive"
action_of (Call.peers (PeersCall.create server_id label)) = none
action_of (Call.peers (PeersCall.revoke id)) = none
action_of (Call.peers (PeersCall.recreate id)) = none
action_of (Call.peers (PeersCall.admin_delete id)) = some "peer.delete"
action_of (Call.routes RoutesCall.current) = none
action_of (Call.routes RoutesCall.resolve) = some "route_list.resolve"
action_of (Call.routes (RoutesCall.upsert dto)) = some "route_group.upsert"
action_of (Call.routes (RoutesCall.enable key is_enabled)) = none
action_of (Call.servers (ServersCall.available country_id)) = none
action_of (Call.servers (ServersCall.register id install_token server_public_key)) = none
action_of (Call.servers (ServersCall.heartbeat id authorization)) = none
action_of (Call.servers (ServersCall.create_country dto)) = some "country.create"
action_of (Call.servers (ServersCall.update_country id code name)) = some "country.update"
action_of (Call.servers (ServersCall.remove_country id)) = some "country.delete"
action_of (Call.servers ServersCall.all_servers) = none
action_of (Call.servers (ServersCall.get id)) = none
action_of (Call.servers (ServersCall.remove id)) = some "server.delete"
action_of (Call.servers (ServersCall.restart id)) = some "server.restart"
action_of (Call.servers (ServersCall.create dto true ssh_password)) = some "server.provision"
action_of (Call.servers (ServersCall.create dto false ssh_password)) = some "server.create"
action_of (Call.servers (ServersCall.update id dto)) = some "server.update"
action_of (Call.health c) = none

-- A service's call, the entry, and the reply: a success has left the entry on top.
pub logged :
    {A : Type 0}
    → (m : Exec Db A) (f : A → AdminAction) (g : A → Reply) (db : Db) (r : Reply) (admin_id : ℕ)
      (action : String)
    → ((a : A) → (f a).admin_id ≡ admin_id)
    → ((a : A) → (f a).action ≡ action)
    → ((m >>= λ a. record_action (f a) >> pure (g a)) db).0 ≡ ok r
    → IsLogged admin_id action ((m >>= λ a. record_action (f a) >> pure (g a)) db).1
unfolding record_action
logged m f g db r admin_id action own named h =
    let run = bind_ok m (λ a. record_action (f a) >> pure (g a)) db r h in
    (f run.0, (m db).1.admin_actions, ap (λ p. p.1.admin_actions) run.2, own run.0, named run.0)

-- After the handler has succeeded for `user`, the entry for the call, if it has an action.
abbrev pub Leaves : {Body : Type 0} → Env Body → AuthUser → Db → Call Body → Type 0
Leaves env user db c =
    (r : Reply)
    → (handle_of env c (some user) db).0 ≡ ok r
    → OfSome (λ action. IsLogged user.id action (handle_of env c (some user) db).1) (action_of c)

pub refused : (e : Error) (r : Reply) → ¬ (err e ≡ ok r)
refused e r h = ground arith
