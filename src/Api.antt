-- ===== src/Api.antt =====
-- The HTTP interface: apps/api/src/common/decorators.ts and common/guards, in the order that
-- apps/api/src/app.module.ts gives the guards. Each controller is a child module.
pub mod Auth
pub mod Users
pub mod Payments
pub mod Tariffs
pub mod Peers
pub mod Routes
pub mod Servers
pub mod Health
pub mod Guards
pub mod Samples
pub mod Router
use fredoomeaxima.Common.{
  ℕ, zero, suc, String, Bool, true, false, ◌&&◌, List, [], ◌∷◌, Option, none, some, ◌==◌, any,
  if◌then◌else◌,
}
use fredoomeaxima.Text.{Text, codes}
use fredoomeaxima.Exec.{
  Result, ok, err, unauthorized, forbidden, internal, Exec, lift, or_throw, ◌>>=◌, ◌>>◌,
}
use fredoomeaxima.Database.{
  User, UserRole, Tariff, Subscription, Payment, Server, HealthCheck, RouteGroup, RouteListVersion,
  AdminAction,
}
use fredoomeaxima.Auth.{AuthTokens, Credentials, Draw}
use fredoomeaxima.Users.{Card}
use fredoomeaxima.Payments.{PaymentProvider, CheckoutResult}
use fredoomeaxima.Peers.{World, Fresh, Created}
use fredoomeaxima.Routes.{Dns, Published}
use fredoomeaxima.Servers.{Crypto}
use fredoomeaxima.Health.{Probe, Alert}

pub record AuthUser : Type 0 where
  pub id : ℕ
  pub email : String
  pub role : UserRole

pub data Method : Type 0 where
  get post patch delete : Method

-- A handler's decorators, those of its class included. No `@Roles` is an empty list.
pub record Endpoint : Type 0 where
  pub method : Method
  pub path : String
  pub is_public : Bool
  pub roles : List UserRole

-- What the services take from outside while a request is served: the clock, new identifiers and
-- keys, the configuration, and the answers of libraries and other machines.
pub record Env (Body : Type 0) : Type 0 where
  pub now : ℕ
  pub new_id : ℕ
  pub new_subscription_id : ℕ
  pub draw : Draw
  pub credentials : Credentials
  pub verify_access : (now : ℕ) → Text → Option AuthUser
  pub web_url : String
  pub provider : PaymentProvider Body
  pub world : World
  pub fresh : Fresh
  pub crypto : Crypto
  pub new_install_token : ℕ
  pub new_agent_token : ℕ
  pub token_of : Text → ℕ
  pub dns : Dns
  pub probe : ℕ → Probe
  pub restart_agent : Server → Result (Unit {0})

-- The bodies of the replies. `done` is an empty one, or one that repeats the row written.
pub data Reply : Type 0 where
  done : Reply
  tokens : AuthTokens → Reply
  account : Option User → Reply
  subscription : Option Subscription → Reply
  subscriptions : List Subscription → Reply
  card : Card → Reply
  tariffs : List Tariff → Reply
  payments : List Payment → Reply
  payment : Option Payment → Reply
  checkout : CheckoutResult → Reply
  handled : Bool → Reply
  created : Created → Reply
  group : Option RouteGroup → Reply
  version : Option RouteListVersion → Reply
  published : Published → Reply
  servers : List Server → Reply
  server : Server → Reply
  provisioning : Server → Bool → Reply
  checks : List HealthCheck → Reply
  alerts : List Alert → Reply

unfoldable pub starts_with : Text → Text → Bool
starts_with [] t = true
starts_with (c ∷ s) [] = false
starts_with (c ∷ s) (d ∷ t) = c == d && starts_with s t

-- `slice(n)`
unfoldable pub drop : ℕ → Text → Text
drop zero t = t
drop (suc n) [] = []
drop (suc n) (c ∷ t) = drop n t

abbrev verified : Option AuthUser → Result (Option AuthUser)
verified none = err (unauthorized "Invalid or expired token")
verified (some user) = ok (some user)

bearer : (Text → Option AuthUser) → Option Text → Result (Option AuthUser)
unfolding starts_with drop
bearer verify none = err (unauthorized "Missing bearer token")
bearer verify (some auth) =
    if starts_with (codes "Bearer ") auth
    then verified (verify (drop 7 auth))
    else err (unauthorized "Missing bearer token")

-- `JwtAuthGuard.canActivate`, with the `user` that it leaves in the request.
jwt_guard : (Text → Option AuthUser) → Endpoint → Option Text → Result (Option AuthUser)
unfolding bearer
jwt_guard verify endpoint authorization =
    if endpoint.is_public then ok none else bearer verify authorization

unfoldable pub same_role : UserRole → UserRole → Bool
same_role UserRole.user UserRole.user = true
same_role UserRole.admin UserRole.admin = true
same_role UserRole.user UserRole.admin = false
same_role UserRole.admin UserRole.user = false

permitted : List UserRole → Option AuthUser → Result (Unit {0})
unfolding same_role
permitted roles none = err (forbidden "Insufficient permissions")
permitted roles (some user) =
    if any (same_role user.role) roles then ok tt else err (forbidden "Insufficient permissions")

-- `RolesGuard.canActivate`
pub roles_guard : List UserRole → Option AuthUser → Result (Unit {0})
unfolding permitted
roles_guard [] who = ok tt
roles_guard (r ∷ rs) who = permitted (r ∷ rs) who

module _ {S A : Type 0} where
  -- Runs the guards, then the handler with the request's `user`.
  pub guarded :
      (Text → Option AuthUser) → Endpoint → Option Text → (Option AuthUser → Exec S A) → Exec S A
  unfolding jwt_guard roles_guard
  guarded verify endpoint authorization handler = do
    who ← lift (jwt_guard verify endpoint authorization)
    lift (roles_guard endpoint.roles who)
    handler who

-- `@CurrentUser()`, whose fields are read: without a user that throws.
abbrev pub current_user : {S : Type 0} → Option AuthUser → Exec S AuthUser
current_user who = or_throw (internal "Cannot read properties of undefined") who

abbrev pub admins : List UserRole
admins = UserRole.admin ∷ []

abbrev pub for_users : Method → String → Endpoint
for_users method path = record { method = method; path = path; is_public = false; roles = [] }

abbrev pub for_admins : Method → String → Endpoint
for_admins method path = record { method = method; path = path; is_public = false; roles = admins }

abbrev pub for_all : Method → String → Endpoint
for_all method path = record { method = method; path = path; is_public = true; roles = [] }

abbrev pub action_on : AuthUser → String → String → ℕ → AdminAction
action_on admin action entity_type entity_id = record {
  admin_id = admin.id;
  action = action;
  entity_type = some entity_type;
  entity_id = some entity_id;
}
