-- ===== src/Database.antt =====
-- The rows of apps/api/prisma/schema.prisma and the codes of packages/shared/src/enums.ts. A table
-- is the list of its rows, newest first. Identifiers, keys, tokens and ciphertexts are opaque to
-- the program, which only compares them and passes them on: they are numbers here. A time is the
-- number of milliseconds since the epoch.
pub mod Frame
pub mod Tables
pub mod Samples
use fredoomeaxima.Common.{ℕ, String, Bool, List, Option}
use fredoomeaxima.Text.{Text}

pub data UserRole : Type 0 where
  user admin : UserRole

pub data UserStatus : Type 0 where
  active blocked : UserStatus

pub data SubscriptionStatus : Type 0 where
  active expired cancelled : SubscriptionStatus

pub data SubscriptionSource : Type 0 where
  payment manual : SubscriptionSource

pub data PaymentStatus : Type 0 where
  pending succeeded failed manual : PaymentStatus

pub data ServerStatus : Type 0 where
  pending active disabled maintenance unreachable : ServerStatus

pub data PeerStatus : Type 0 where
  active revoked : PeerStatus

pub data ProvisionStatus : Type 0 where
  none running success failed : ProvisionStatus

pub record User : Type 0 where
  pub id : ℕ
  pub email : String
  pub password_hash : ℕ
  pub role : UserRole
  pub status : UserStatus

pub record Tariff : Type 0 where
  pub id : ℕ
  pub name : String
  pub price_cents : ℕ
  pub currency : String
  pub duration_days : ℕ
  pub device_limit : ℕ
  pub is_active : Bool
  pub is_public : Bool
  pub is_archived : Bool
  pub allowed_countries : List ℕ

pub record Subscription : Type 0 where
  pub id : ℕ
  pub user_id : ℕ
  pub tariff_id : ℕ
  pub status : SubscriptionStatus
  pub source : SubscriptionSource
  pub starts_at : ℕ
  pub ends_at : ℕ

pub record Payment : Type 0 where
  pub id : ℕ
  pub user_id : ℕ
  pub tariff_id : Option ℕ
  pub amount_cents : ℕ
  pub currency : String
  pub status : PaymentStatus
  pub provider : String
  pub provider_txn_id : Option ℕ
  pub paid_at : Option ℕ

pub record Country : Type 0 where
  pub id : ℕ
  pub code : String
  pub name : String

pub record Server : Type 0 where
  pub id : ℕ
  pub name : String
  pub country_id : ℕ
  pub ip : Text
  pub ssh_user : String
  pub ssh_port : ℕ
  pub wg_endpoint_port : ℕ
  pub agent_url : Text
  pub agent_token_enc : Option ℕ
  pub server_public_key : Option ℕ
  pub max_peers : ℕ
  pub status : ServerStatus
  pub install_token : Option ℕ
  pub registered_at : Option ℕ
  pub last_heartbeat_at : Option ℕ
  pub monthly_cost_cents : ℕ
  pub cost_currency : String
  pub provider : Option String
  pub next_renewal_at : Option ℕ
  pub provision_status : ProvisionStatus
  pub provision_log : Text

pub record Peer : Type 0 where
  pub id : ℕ
  pub user_id : ℕ
  pub server_id : ℕ
  pub label : Option String
  pub public_key : ℕ
  pub private_key_enc : ℕ
  pub preshared_key_enc : ℕ
  pub assigned_ip : Option Text
  pub status : PeerStatus
  pub route_list_version_id : Option ℕ
  pub needs_update : Bool

pub record HealthCheck : Type 0 where
  pub server_id : ℕ
  pub checked_at : ℕ
  pub reachable : Bool
  pub wg_port_open : Bool
  pub latency_ms : Option ℕ
  pub dns_ok : Bool
  pub target_results : List (String × Bool)
  pub ok : Bool
  pub detail : String

pub record RefreshToken : Type 0 where
  pub id : ℕ
  pub user_id : ℕ
  pub token_hash : ℕ
  pub expires_at : ℕ
  pub revoked : Bool

pub record RouteGroup : Type 0 where
  pub id : ℕ
  pub key : String
  pub name : String
  pub domains : List String
  pub is_enabled : Bool

pub record RouteEntry : Type 0 where
  pub route_group_id : ℕ
  pub cidr : Text

-- A version with its entries.
pub record RouteListVersion : Type 0 where
  pub id : ℕ
  pub version : ℕ
  pub entries : List RouteEntry

pub record AdminAction : Type 0 where
  pub admin_id : ℕ
  pub action : String
  pub entity_type : Option String
  pub entity_id : Option ℕ

pub record Db : Type 0 where
  pub users : List User
  pub tariffs : List Tariff
  pub subscriptions : List Subscription
  pub payments : List Payment
  pub countries : List Country
  pub servers : List Server
  pub peers : List Peer
  pub health_checks : List HealthCheck
  pub refresh_tokens : List RefreshToken
  pub route_groups : List RouteGroup
  pub route_versions : List RouteListVersion
  pub admin_actions : List AdminAction
