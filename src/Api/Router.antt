-- ===== src/Api/Router.antt =====
-- All requests that are modelled, and serving one: the guards, then the controller's handler.
pub mod Restricted
pub mod Entries
pub mod Trail
pub mod Refreshing
pub mod Kept
mod Tests
use fredoomeaxima.Common.{ℕ, String, Bool, true, false, Option, none, some}
use fredoomeaxima.Text.{Text}
use fredoomeaxima.Exec.{Exec}
use fredoomeaxima.Database.{Db}
use fredoomeaxima.Api.{AuthUser, Endpoint, Env, Reply, guarded}
use fredoomeaxima.Api.Auth.{AuthCall, endpoint as auth_endpoint, handle as handle_auth}
use fredoomeaxima.Api.Users.{UsersCall, endpoint as users_endpoint, handle as handle_users}
use fredoomeaxima.Api.Payments.{
  PaymentsCall, endpoint as payments_endpoint, handle as handle_payments,
}
use fredoomeaxima.Api.Tariffs.{TariffsCall, endpoint as tariffs_endpoint, handle as handle_tariffs}
use fredoomeaxima.Api.Peers.{PeersCall, endpoint as peers_endpoint, handle as handle_peers}
use fredoomeaxima.Api.Routes.{RoutesCall, endpoint as routes_endpoint, handle as handle_routes}
use fredoomeaxima.Api.Servers.{ServersCall, endpoint as servers_endpoint, handle as handle_servers}
use fredoomeaxima.Api.Health.{HealthCall, endpoint as health_endpoint, handle as handle_health}

pub data Call (Body : Type 0) : Type 0 where
  auth : AuthCall → Call Body
  users : UsersCall → Call Body
  payments : PaymentsCall Body → Call Body
  tariffs : TariffsCall → Call Body
  peers : PeersCall → Call Body
  routes : RoutesCall → Call Body
  servers : ServersCall → Call Body
  health : HealthCall → Call Body

module _ {Body : Type 0} where
  abbrev pub endpoint_of : Call Body → Endpoint
  endpoint_of (Call.auth c) = auth_endpoint c
  endpoint_of (Call.users c) = users_endpoint c
  endpoint_of (Call.payments c) = payments_endpoint c
  endpoint_of (Call.tariffs c) = tariffs_endpoint c
  endpoint_of (Call.peers c) = peers_endpoint c
  endpoint_of (Call.routes c) = routes_endpoint c
  endpoint_of (Call.servers c) = servers_endpoint c
  endpoint_of (Call.health c) = health_endpoint c

  abbrev pub handle_of : Env Body → Call Body → Option AuthUser → Exec Db Reply
  handle_of env (Call.auth c) who = handle_auth env who c
  handle_of env (Call.users c) who = handle_users env who c
  handle_of env (Call.payments c) who = handle_payments env who c
  handle_of env (Call.tariffs c) who = handle_tariffs env who c
  handle_of env (Call.peers c) who = handle_peers env who c
  handle_of env (Call.routes c) who = handle_routes env who c
  handle_of env (Call.servers c) who = handle_servers env who c
  handle_of env (Call.health c) who = handle_health env who c

  pub serve : Env Body → Option Text → Call Body → Exec Db Reply
  serve env authorization call =
      guarded (env.verify_access env.now) (endpoint_of call) authorization (handle_of env call)
