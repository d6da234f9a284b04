-- ===== src/Servers.antt =====
-- apps/api/src/servers/servers.service.ts: the fleet of WireGuard servers. The clock, random tokens,
-- new identifiers, the cipher and the agents' answers are arguments.
pub mod Frame
pub mod Registration
pub mod Countries
pub mod Install
pub mod InstallScript
use fredoomeaxima.Common.{
  ℕ, String, Bool, true, false, not, ◌&&◌, ◌||◌, List, [], ◌∷◌, ◌++◌, Option, none, some, ltb, ◌==◌,
  find, filter, any, map, if◌then◌else◌,
}
use text.Mathlib.Text.{◌==◌ as str_eq}
use fredoomeaxima.Text.{Text, codes, to_text}
use fredoomeaxima.Exec.{
  Error, Result, ok, err, not_found, bad_request, Exec, pure, gets, modify, or_throw, throw_if,
  lift, ◌>>=◌, ◌>>◌,
}
use fredoomeaxima.Database.{
  Db, Server, ServerStatus, ProvisionStatus, Country, Peer, PeerStatus, Tariff,
}
use fredoomeaxima.Database.Tables.{update_where, count}

-- apps/api/src/common/crypto.service.ts, over AES-GCM; a ciphertext that is not genuine is an error.
pub record Crypto : Type 0 where
  pub encrypt : ℕ → ℕ
  pub decrypt : ℕ → Result ℕ

abbrev pub find_server : ℕ → Db → Option Server
find_server id db = find (λ s. s.id == id) db.servers

abbrev pub update_server : ℕ → (Server → Server) → Db → Db
update_server id f db = record db { servers = update_where (λ s. s.id == id) f db.servers }

unfoldable pub get_raw : ℕ → Exec Db Server
get_raw id = do found ← gets (find_server id); or_throw (not_found "Server not found") found

unfoldable pub peer_is_active : PeerStatus → Bool
peer_is_active PeerStatus.active = true
peer_is_active PeerStatus.revoked = false

unfoldable pub server_is_active : ServerStatus → Bool
server_is_active ServerStatus.active = true
server_is_active ServerStatus.pending = false
server_is_active ServerStatus.disabled = false
server_is_active ServerStatus.maintenance = false
server_is_active ServerStatus.unreachable = false

unfoldable pub is_unreachable : ServerStatus → Bool
is_unreachable ServerStatus.unreachable = true
is_unreachable ServerStatus.active = false
is_unreachable ServerStatus.pending = false
is_unreachable ServerStatus.disabled = false
is_unreachable ServerStatus.maintenance = false

-- `_count: { select: { peers: { where: { status: 'ACTIVE' } } } }`
pub active_peers : ℕ → Db → ℕ
unfolding peer_is_active
active_peers server_id db =
    count (λ p. p.server_id == server_id && peer_is_active p.status) db.peers

abbrev in_country : Option ℕ → Server → Bool
in_country none s = true
in_country (some country_id) s = s.country_id == country_id

-- The servers with free places; the order by name is not modelled.
pub list_available : Option ℕ → Db → List Server
unfolding server_is_active
list_available country_id db =
    filter (λ s. ltb (active_peers s.id db) s.max_peers)
      (filter (λ s. server_is_active s.status && in_country country_id s) db.servers)

pub record CreateServerInput : Type 0 where
  pub name : String
  pub country_id : ℕ
  pub ip : Text
  pub ssh_user : String
  pub ssh_port : ℕ
  pub wg_endpoint_port : ℕ
  pub agent_url : Option Text
  pub agent_port : ℕ
  pub max_peers : ℕ
  pub monthly_cost_cents : ℕ
  pub cost_currency : String
  pub provider : Option String
  pub next_renewal_at : Option ℕ

-- `agentUrl ?? ` the address and port of the agent
abbrev url_of : Option Text → Text → ℕ → Text
url_of (some url) ip port = url
url_of none ip port = codes "http://" ++ (ip ++ b':' ∷ to_text port)

pub create : Crypto → (new_id install_token agent_token : ℕ) → CreateServerInput → Exec Db Server
create crypto new_id install_token agent_token input = do
  let server : Server = record {
    id = new_id;
    name = input.name;
    country_id = input.country_id;
    ip = input.ip;
    ssh_user = input.ssh_user;
    ssh_port = input.ssh_port;
    wg_endpoint_port = input.wg_endpoint_port;
    agent_url = url_of input.agent_url input.ip input.agent_port;
    agent_token_enc = some (crypto.encrypt agent_token);
    server_public_key = none;
    max_peers = input.max_peers;
    status = ServerStatus.pending;
    install_token = some install_token;
    registered_at = none;
    last_heartbeat_at = none;
    monthly_cost_cents = input.monthly_cost_cents;
    cost_currency = input.cost_currency;
    provider = input.provider;
    next_renewal_at = input.next_renewal_at;
    provision_status = ProvisionStatus.none;
    provision_log = [];
  }
  modify (λ db. record db { servers = server ∷ db.servers })
  pure server

-- A field that is `undefined` is left as it was.
abbrev given {ℓ} : {A : Type ℓ} → Option A → A → A
given none a = a
given (some b) a = b

abbrev given_some {ℓ} : {A : Type ℓ} → Option A → Option A → Option A
given_some none a = a
given_some (some b) a = some b

pub record UpdateServerInput : Type 0 where
  pub name : Option String
  pub country_id : Option ℕ
  pub ip : Option Text
  pub ssh_user : Option String
  pub ssh_port : Option ℕ
  pub wg_endpoint_port : Option ℕ
  pub agent_url : Option Text
  pub max_peers : Option ℕ
  pub monthly_cost_cents : Option ℕ
  pub cost_currency : Option String
  pub provider : Option String
  pub status : Option ServerStatus
  pub next_renewal_at : Option ℕ

apply_update : UpdateServerInput → Server → Server
apply_update input s = record s {
  name = given input.name s.name;
  country_id = given input.country_id s.country_id;
  ip = given input.ip s.ip;
  ssh_user = given input.ssh_user s.ssh_user;
  ssh_port = given input.ssh_port s.ssh_port;
  wg_endpoint_port = given input.wg_endpoint_port s.wg_endpoint_port;
  agent_url = given input.agent_url s.agent_url;
  max_peers = given input.max_peers s.max_peers;
  monthly_cost_cents = given input.monthly_cost_cents s.monthly_cost_cents;
  cost_currency = given input.cost_currency s.cost_currency;
  provider = given_some input.provider s.provider;
  status = given input.status s.status;
  next_renewal_at = given_some input.next_renewal_at s.next_renewal_at;
}

pub update : ℕ → UpdateServerInput → Exec Db (Unit {0})
unfolding apply_update
update id input = do get_raw id; modify (update_server id (apply_update input))

-- `!token || token !== given`
abbrev differs : Option ℕ → ℕ → Bool
differs none token = true
differs (some t) token = not (t == token)

pub register : (now server_id install_token server_public_key : ℕ) → Exec Db (Unit {0})
register now server_id install_token server_public_key = do
  server ← get_raw server_id
  throw_if (differs server.install_token install_token) (bad_request "Invalid install token")
  modify (
      update_server server_id (λ s. record s {
        server_public_key = some server_public_key;
        status = ServerStatus.active;
        registered_at = some now;
        last_heartbeat_at = some now;
        install_token = none;
      }))

-- `agentTokenEnc ? decrypt(agentTokenEnc) : null`
agent_token : Crypto → Option ℕ → Exec Db (Option ℕ)
agent_token crypto none = pure none
agent_token crypto (some c) = do t ← lift (crypto.decrypt c); pure (some t)

-- Only an unreachable server is recovered; a status under the admin's control is kept.
recovered : ServerStatus → ServerStatus
unfolding is_unreachable
recovered status = if is_unreachable status then ServerStatus.active else status

pub heartbeat : Crypto → (now server_id token : ℕ) → Exec Db (Unit {0})
heartbeat crypto now server_id token = do
  server ← get_raw server_id
  expected ← agent_token crypto server.agent_token_enc
  throw_if (differs expected token) (bad_request "Invalid agent token")
  modify (
      update_server server_id
        (λ s. record s { last_heartbeat_at = some now; status = recovered s.status }))

-- Deleting a server deletes its peers and health checks, as the schema says (`onDelete: Cascade`).
pub remove : ℕ → Exec Db (Unit {0})
remove id = do
  get_raw id
  modify (λ db. record db {
    servers = filter (λ s. not (s.id == id)) db.servers;
    peers = filter (λ p. not (p.server_id == id)) db.peers;
    health_checks = filter (λ h. not (h.server_id == id)) db.health_checks;
  })

-- Newest first; the counts of peers that the reply adds are left out.
pub list : Db → List Server
list db = db.servers

-- What the reply adds to the row is left out.
pub get : ℕ → Exec Db Server
get id = do found ← gets (find_server id); or_throw (not_found "Server not found") found

-- `agent.restart` is a parameter: it throws, or is done.
pub restart_wg : (Server → Result (Unit {0})) → ℕ → Exec Db (Unit {0})
restart_wg restart_agent id = do server ← get_raw id; lift (restart_agent server)
