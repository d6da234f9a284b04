-- ===== src/Api/Router/Kept.antt =====
-- What serving a request keeps, from what the methods keep that write devices or route lists.
use fredoomeaxima.Common.{ℕ, String, Bool, true, false, Option}
use fredoomeaxima.Text.{Text}
use fredoomeaxima.Exec.Keeps.{Keeps, keeps_rules}
use fredoomeaxima.Database.{Db, Server, AdminAction}
use fredoomeaxima.Database.Frame.{Frame}
use fredoomeaxima.Auth.Frame.{register-Keeps, login-Keeps, refresh-Keeps, logout-Keeps}
use fredoomeaxima.Users.Frame.{get_card-Keeps, set_status-Keeps}
use fredoomeaxima.Subscriptions.Frame.{grant_or_extend-Keeps}
use fredoomeaxima.Payments.Frame.{checkout-Keeps, handle_webhook-Keeps, mark_manually_paid-Keeps}
use fredoomeaxima.Tariffs.Frame.{
  create-Keeps as create_tariff-Keeps, update-Keeps as update_tariff-Keeps, archive-Keeps,
}
use fredoomeaxima.Servers.{remove as remove_server}
use fredoomeaxima.Servers.Frame.{
  create-Keeps as create_server-Keeps, update-Keeps as update_server-Keeps,
  register-Keeps as register_server-Keeps, heartbeat-Keeps, restart_wg-Keeps,
  get-Keeps as get_server-Keeps,
}
use fredoomeaxima.Servers.Countries.Frame.{
  create_country-Keeps, update_country-Keeps, remove_country-Keeps,
}
use fredoomeaxima.Routes.{Dns, resolve_and_publish}
use fredoomeaxima.Routes.Frame.{upsert_group-Keeps, set_enabled-Keeps}
use fredoomeaxima.Health.Frame.{check_server-Keeps}
use fredoomeaxima.Peers.{World, Fresh, create, revoke, recreate, admin_delete}
use fredoomeaxima.Audit.{record_action}
use fredoomeaxima.Api.{AuthUser, Env}
use fredoomeaxima.Api.Guards.{guarded-Keeps}
use fredoomeaxima.Api.Auth.{AuthCall, handle as handle_auth}
use fredoomeaxima.Api.Users.{UsersCall, handle as handle_users}
use fredoomeaxima.Api.Payments.{PaymentsCall, handle as handle_payments}
use fredoomeaxima.Api.Tariffs.{TariffsCall, handle as handle_tariffs}
use fredoomeaxima.Api.Peers.{PeersCall, handle as handle_peers}
use fredoomeaxima.Api.Routes.{RoutesCall, handle as handle_routes}
use fredoomeaxima.Api.Servers.{ServersCall, start_provisioning, handle as handle_servers}
use fredoomeaxima.Api.Health.{HealthCall, handle as handle_health}
use fredoomeaxima.Api.Router.{Call, endpoint_of, handle_of, serve}

-- The methods that write devices or route lists keep the property.
pub record Guarded (P : Db → Type 0) (world : World) : Type 0 where
  pub frame : Frame P
  pub creates :
      (fresh : Fresh) (now user_id server_id : ℕ) (label : Option String) (replacing : Option ℕ)
      → Keeps P (create world fresh now user_id server_id label replacing)
  pub revokes : (user_id peer_id : ℕ) → Keeps P (revoke user_id peer_id)
  pub recreates :
      (fresh : Fresh) (now user_id peer_id : ℕ) → Keeps P (recreate world fresh now user_id peer_id)
  pub deletes : (peer_id : ℕ) → Keeps P (admin_delete peer_id)
  pub removes : (server_id : ℕ) → Keeps P (remove_server server_id)
  pub publishes : (dns : Dns) (new_id : ℕ) → Keeps P (resolve_and_publish dns new_id)

module _ {Body : Type 0} (P : Db → Type 0) (env : Env Body) (g : Guarded P env.world) where
  record_action-Keeps : (a : AdminAction) → Keeps P (record_action a)
  unfolding record_action
  record_action-Keeps a = record { at = λ db p. g.frame.admin_actions db _ p }

  auth-Keeps : (who : Option AuthUser) (c : AuthCall) → Keeps P (handle_auth env who c)
  unfolding handle_auth
  auth-Keeps who (AuthCall.register email password) =
      search (keeps_rules, register-Keeps P g.frame) depth 8
  auth-Keeps who (AuthCall.login email password) =
      search (keeps_rules, login-Keeps P g.frame) depth 8
  auth-Keeps who (AuthCall.refresh token) = search (keeps_rules, refresh-Keeps P g.frame) depth 8
  auth-Keeps who (AuthCall.logout token) = search (keeps_rules, logout-Keeps P g.frame) depth 8
  auth-Keeps who AuthCall.me = search keeps_rules depth 8

  users-Keeps : (who : Option AuthUser) (c : UsersCall) → Keeps P (handle_users env who c)
  unfolding handle_users
  users-Keeps who UsersCall.my_overview = search keeps_rules depth 8
  users-Keeps who UsersCall.my_subscriptions = search keeps_rules depth 8
  users-Keeps who (UsersCall.card id) = search (keeps_rules, get_card-Keeps P g.frame) depth 8
  users-Keeps who (UsersCall.block id) =
      search (keeps_rules, set_status-Keeps P g.frame, record_action-Keeps) depth 12
  users-Keeps who (UsersCall.unblock id) =
      search (keeps_rules, set_status-Keeps P g.frame, record_action-Keeps) depth 12
  users-Keeps who (UsersCall.grant id tariff_id duration_days) =
      search (keeps_rules, grant_or_extend-Keeps P g.frame, record_action-Keeps) depth 12

  payments-Keeps :
      (who : Option AuthUser) (c : PaymentsCall Body) → Keeps P (handle_payments env who c)
  unfolding handle_payments
  payments-Keeps who (PaymentsCall.checkout_for tariff_id) =
      search (keeps_rules, checkout-Keeps P g.frame) depth 8
  payments-Keeps who PaymentsCall.mine = search keeps_rules depth 8
  payments-Keeps who PaymentsCall.all_payments = search keeps_rules depth 8
  payments-Keeps who (PaymentsCall.webhook raw) =
      search (keeps_rules, handle_webhook-Keeps P g.frame) depth 8
  payments-Keeps who (PaymentsCall.mark_paid id) =
      search (keeps_rules, mark_manually_paid-Keeps P g.frame, record_action-Keeps) depth 12

  tariffs-Keeps : (who : Option AuthUser) (c : TariffsCall) → Keeps P (handle_tariffs env who c)
  unfolding handle_tariffs
  tariffs-Keeps who TariffsCall.active_tariffs = search keeps_rules depth 8
  tariffs-Keeps who TariffsCall.all_tariffs = search keeps_rules depth 8
  tariffs-Keeps who (TariffsCall.create dto) =
      search (keeps_rules, create_tariff-Keeps P g.frame, record_action-Keeps) depth 12
  tariffs-Keeps who (TariffsCall.update id dto) =
      search (keeps_rules, update_tariff-Keeps P g.frame, record_action-Keeps) depth 12
  tariffs-Keeps who (TariffsCall.remove id) =
      search (keeps_rules, archive-Keeps P g.frame, record_action-Keeps) depth 12

  peers-Keeps : (who : Option AuthUser) (c : PeersCall) → Keeps P (handle_peers env who c)
  unfolding handle_peers
  peers-Keeps who (PeersCall.create server_id label) = search (keeps_rules, g.creates) depth 8
  peers-Keeps who (PeersCall.revoke id) = search (keeps_rules, g.revokes) depth 8
  peers-Keeps who (PeersCall.recreate id) = search (keeps_rules, g.recreates) depth 8
  peers-Keeps who (PeersCall.admin_delete id) =
      search (keeps_rules, g.deletes, record_action-Keeps) depth 12

  routes-Keeps : (who : Option AuthUser) (c : RoutesCall) → Keeps P (handle_routes env who c)
  unfolding handle_routes
  routes-Keeps who RoutesCall.current = search keeps_rules depth 8
  routes-Keeps who (RoutesCall.upsert dto) =
      search (keeps_rules, upsert_group-Keeps P g.frame, record_action-Keeps) depth 12
  routes-Keeps who (RoutesCall.enable key is_enabled) =
      search (keeps_rules, set_enabled-Keeps P g.frame) depth 8
  routes-Keeps who RoutesCall.resolve =
      search (keeps_rules, g.publishes, record_action-Keeps) depth 12

  start_provisioning-Keeps :
      (admin : AuthUser) (s : Server) (provision : Bool) (password : Option Text)
      → Keeps P (start_provisioning admin s provision password)
  unfolding start_provisioning
  start_provisioning-Keeps admin s false password = search keeps_rules
  start_provisioning-Keeps admin s true password =
      search (keeps_rules, record_action-Keeps) depth 12

  servers-Keeps : (who : Option AuthUser) (c : ServersCall) → Keeps P (handle_servers env who c)
  unfolding handle_servers
  servers-Keeps who (ServersCall.available country_id) = search keeps_rules depth 8
  servers-Keeps who (ServersCall.register id install_token server_public_key) =
      search (keeps_rules, register_server-Keeps P g.frame) depth 8
  servers-Keeps who (ServersCall.heartbeat id authorization) =
      search (keeps_rules, heartbeat-Keeps P g.frame) depth 8
  servers-Keeps who (ServersCall.create_country dto) =
      search (keeps_rules, create_country-Keeps P g.frame, record_action-Keeps) depth 12
  servers-Keeps who (ServersCall.update_country id code name) =
      search (keeps_rules, update_country-Keeps P g.frame, record_action-Keeps) depth 12
  servers-Keeps who (ServersCall.remove_country id) =
      search (keeps_rules, remove_country-Keeps P g.frame, record_action-Keeps) depth 12
  servers-Keeps who ServersCall.all_servers = search keeps_rules depth 8
  servers-Keeps who (ServersCall.get id) = search (keeps_rules, get_server-Keeps P g.frame) depth 8
  servers-Keeps who (ServersCall.remove id) =
      search (keeps_rules, g.removes, record_action-Keeps) depth 12
  servers-Keeps who (ServersCall.restart id) =
      search (keeps_rules, restart_wg-Keeps P g.frame, record_action-Keeps) depth 12
  servers-Keeps who (ServersCall.create dto provision ssh_password) =
      search
        (keeps_rules, create_server-Keeps P g.frame, record_action-Keeps, start_provisioning-Keeps)
        depth 16
  servers-Keeps who (ServersCall.update id dto) =
      search (keeps_rules, update_server-Keeps P g.frame, record_action-Keeps) depth 12

  health-Keeps : (who : Option AuthUser) (c : HealthCall) → Keeps P (handle_health env who c)
  unfolding handle_health
  health-Keeps who (HealthCall.recent id) = search keeps_rules depth 8
  health-Keeps who (HealthCall.run id) = search (keeps_rules, check_server-Keeps P g.frame) depth 8

  handle_of-Keeps : (who : Option AuthUser) (c : Call Body) → Keeps P (handle_of env c who)
  handle_of-Keeps who (Call.auth c) = auth-Keeps who c
  handle_of-Keeps who (Call.users c) = users-Keeps who c
  handle_of-Keeps who (Call.payments c) = payments-Keeps who c
  handle_of-Keeps who (Call.tariffs c) = tariffs-Keeps who c
  handle_of-Keeps who (Call.peers c) = peers-Keeps who c
  handle_of-Keeps who (Call.routes c) = routes-Keeps who c
  handle_of-Keeps who (Call.servers c) = servers-Keeps who c
  handle_of-Keeps who (Call.health c) = health-Keeps who c

  -- Whoever asks for whatever, the property is kept, whether the request succeeds or fails.
  pub serve-Keeps :
      (authorization : Option Text) (call : Call Body) → Keeps P (serve env authorization call)
  unfolding serve
  serve-Keeps authorization call =
      guarded-Keeps (env.verify_access env.now) (endpoint_of call) authorization
        (handle_of env call) (λ who. handle_of-Keeps who call)
