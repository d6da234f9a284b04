-- ===== src/Api/Router/Restricted.antt =====
-- The endpoints under admin/, and requests without a valid token.
use fredoomeaxima.Common.{
  ◌≡◌, refl, String, Bool, true, false, not, ◌&&◌, ◌||◌, List, [], ◌∷◌, Option, none, arith,
}
use fredoomeaxima.Text.{Text, codes}
use fredoomeaxima.Exec.{err, unauthorized}
use fredoomeaxima.Database.{Db, UserRole}
use fredoomeaxima.Api.{Endpoint, Env, starts_with, admins}
use fredoomeaxima.Api.Guards.{bearer_of, guarded_unknown, IsAdminOnly, guarded-IsAdminOnly}
use fredoomeaxima.Api.Auth.{AuthCall, endpoint as auth_endpoint}
use fredoomeaxima.Api.Users.{UsersCall, endpoint as users_endpoint}
use fredoomeaxima.Api.Payments.{PaymentsCall, endpoint as payments_endpoint}
use fredoomeaxima.Api.Tariffs.{TariffsCall, endpoint as tariffs_endpoint}
use fredoomeaxima.Api.Peers.{PeersCall, endpoint as peers_endpoint}
use fredoomeaxima.Api.Routes.{RoutesCall, endpoint as routes_endpoint}
use fredoomeaxima.Api.Servers.{ServersCall, endpoint as servers_endpoint}
use fredoomeaxima.Api.Health.{HealthCall, endpoint as health_endpoint}
use fredoomeaxima.Api.Router.{Call, endpoint_of, handle_of, serve}

abbrev is_admin_path : Endpoint → Bool
is_admin_path e = starts_with (codes "admin/") (codes e.path)

abbrev is_admins : List UserRole → Bool
is_admins (UserRole.admin ∷ []) = true
is_admins _ = false

-- Not an endpoint under admin/, or one for administrators alone.
abbrev IsRestricted : Endpoint → Type 0
IsRestricted e = (not (is_admin_path e) || (not e.is_public && is_admins e.roles)) ≡ true

admins_of : (roles : List UserRole) → is_admins roles ≡ true → roles ≡ admins
admins_of [] h = absurd (ground arith)
admins_of (UserRole.admin ∷ []) h = refl
admins_of (UserRole.admin ∷ r ∷ rs) h = absurd (ground arith)
admins_of (UserRole.user ∷ rs) h = absurd (ground arith)

auth-IsRestricted : (c : AuthCall) → IsRestricted (auth_endpoint c)
unfolding auth_endpoint starts_with
auth-IsRestricted (AuthCall.register email password) = refl
auth-IsRestricted (AuthCall.login email password) = refl
auth-IsRestricted (AuthCall.refresh token) = refl
auth-IsRestricted (AuthCall.logout token) = refl
auth-IsRestricted AuthCall.me = refl

users-IsRestricted : (c : UsersCall) → IsRestricted (users_endpoint c)
unfolding users_endpoint starts_with
users-IsRestricted UsersCall.my_overview = refl
users-IsRestricted UsersCall.my_subscriptions = refl
users-IsRestricted (UsersCall.card id) = refl
users-IsRestricted (UsersCall.block id) = refl
users-IsRestricted (UsersCall.unblock id) = refl
users-IsRestricted (UsersCall.grant id tariff_id duration_days) = refl

payments-IsRestricted :
    {Body : Type 0} → (c : PaymentsCall Body) → IsRestricted (payments_endpoint c)
unfolding payments_endpoint starts_with
payments-IsRestricted (PaymentsCall.checkout_for tariff_id) = refl
payments-IsRestricted PaymentsCall.mine = refl
payments-IsRestricted PaymentsCall.all_payments = refl
payments-IsRestricted (PaymentsCall.webhook raw) = refl
payments-IsRestricted (PaymentsCall.mark_paid id) = refl

tariffs-IsRestricted : (c : TariffsCall) → IsRestricted (tariffs_endpoint c)
unfolding tariffs_endpoint starts_with
tariffs-IsRestricted TariffsCall.active_tariffs = refl
tariffs-IsRestricted TariffsCall.all_tariffs = refl
tariffs-IsRestricted (TariffsCall.create dto) = refl
tariffs-IsRestricted (TariffsCall.update id dto) = refl
tariffs-IsRestricted (TariffsCall.remove id) = refl

peers-IsRestricted : (c : PeersCall) → IsRestricted (peers_endpoint c)
unfolding peers_endpoint starts_with
peers-IsRestricted (PeersCall.create server_id label) = refl
peers-IsRestricted (PeersCall.revoke id) = refl
peers-IsRestricted (PeersCall.recreate id) = refl
peers-IsRestricted (PeersCall.admin_delete id) = refl

routes-IsRestricted : (c : RoutesCall) → IsRestricted (routes_endpoint c)
unfolding routes_endpoint starts_with
routes-IsRestricted RoutesCall.current = refl
routes-IsRestricted RoutesCall.resolve = refl
routes-IsRestricted (RoutesCall.upsert dto) = refl
routes-IsRestricted (RoutesCall.enable key is_enabled) = refl

servers-IsRestricted : (c : ServersCall) → IsRestricted (servers_endpoint c)
unfolding servers_endpoint starts_with
servers-IsRestricted (ServersCall.available country_id) = refl
servers-IsRestricted (ServersCall.register id install_token server_public_key) = refl
servers-IsRestricted (ServersCall.heartbeat id authorization) = refl
servers-IsRestricted (ServersCall.create_country dto) = refl
servers-IsRestricted (ServersCall.update_country id code name) = refl
servers-IsRestricted (ServersCall.remove_country id) = refl
servers-IsRestricted ServersCall.all_servers = refl
servers-IsRestricted (ServersCall.get id) = refl
servers-IsRestricted (ServersCall.remove id) = refl
servers-IsRestricted (ServersCall.restart id) = refl
servers-IsRestricted (ServersCall.create dto provision ssh_password) = refl
servers-IsRestricted (ServersCall.update id dto) = refl

health-IsRestricted : (c : HealthCall) → IsRestricted (health_endpoint c)
unfolding health_endpoint starts_with
health-IsRestricted (HealthCall.recent id) = refl
health-IsRestricted (HealthCall.run id) = refl

module _ {Body : Type 0} where
  call-IsRestricted : (c : Call Body) → IsRestricted (endpoint_of c)
  call-IsRestricted (Call.auth c) = auth-IsRestricted c
  call-IsRestricted (Call.users c) = users-IsRestricted c
  call-IsRestricted (Call.payments c) = payments-IsRestricted c
  call-IsRestricted (Call.tariffs c) = tariffs-IsRestricted c
  call-IsRestricted (Call.peers c) = peers-IsRestricted c
  call-IsRestricted (Call.routes c) = routes-IsRestricted c
  call-IsRestricted (Call.servers c) = servers-IsRestricted c
  call-IsRestricted (Call.health c) = health-IsRestricted c

  -- A request to a path under admin/ either runs its handler for the user that its bearer token
  -- verifies as, who is an administrator, or is refused as unauthorized or forbidden and leaves
  -- the tables as they were.
  pub serve-IsAdminOnly :
      (env : Env Body) (authorization : Option Text) (c : Call Body) (db : Db)
      → starts_with (codes "admin/") (codes (endpoint_of c).path) ≡ true
      → IsAdminOnly
          (env.verify_access env.now)
          authorization
          (handle_of env c)
          db
          (serve env authorization c db)
  unfolding serve
  serve-IsAdminOnly env authorization c db under =
      let restricted = call-IsRestricted c in
      guarded-IsAdminOnly (env.verify_access env.now) (endpoint_of c) authorization
        (handle_of env c) db (ground (arith, restricted, under))
        (admins_of _ (ground (arith, restricted, under)))

  -- A request without a bearer token that verifies is refused as unauthorized and leaves the
  -- tables as they were, unless the endpoint is marked public.
  pub serve_unknown :
      (env : Env Body) (authorization : Option Text) (c : Call Body) (db : Db)
      → (endpoint_of c).is_public ≡ false
      → bearer_of (env.verify_access env.now) authorization ≡ none
      → (message : String) × (serve env authorization c db ≡ (err (unauthorized message), db))
  unfolding serve
  serve_unknown env authorization c db closed unknown =
      guarded_unknown (env.verify_access env.now) (endpoint_of c) authorization (handle_of env c) db
        closed unknown
