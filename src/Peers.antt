-- ===== src/Peers.antt =====
-- apps/api/src/peers/peers.service.ts: the devices of a user. The agents' answers, the keys that
-- are generated and the settings are arguments.
pub mod Creation
pub mod Limits
pub mod Configs
pub mod Seats
pub mod Frame
mod Tests
use fredoomeaxima.Common.{
  ℕ, String, Bool, true, false, not, ◌&&◌, ◌||◌, List, [], ◌∷◌, Option, none, some, ltb, leb, ◌==◌,
  find, filter, any, length, if◌then◌else◌,
}
use fredoomeaxima.Text.{Text, text_eq}
use fredoomeaxima.Exec.{
  Error, Result, ok, err, not_found, bad_request, forbidden, internal, Exec, pure, gets, modify,
  or_throw, throw_if, lift, ◌>>=◌, ◌>>◌,
}
use fredoomeaxima.Database.{Db, Server, Peer, PeerStatus, Tariff, Subscription}
use fredoomeaxima.Database.Tables.{update_where, count}
use fredoomeaxima.Subscriptions.{get_active}
use fredoomeaxima.Servers.{Crypto, find_server, server_is_active, peer_is_active}
use fredoomeaxima.IpAlloc.{Number, next_free_ip}

-- The settings, and the answer of a server's agent to a new peer with a public key, a preshared
-- key and an address.
pub record World : Type 0 where
  pub number : Text → Number
  pub subnet : Text
  pub server_address : Text
  pub crypto : Crypto
  pub add_peer : Server → ℕ → ℕ → Text → Result (Unit {0})

-- What is generated for a new peer.
pub record Fresh : Type 0 where
  pub id : ℕ
  pub private_key : ℕ
  pub public_key : ℕ
  pub preshared_key : ℕ

pub record Created : Type 0 where
  pub id : ℕ
  pub assigned_ip : Text

abbrev is_replaced : Option ℕ → Peer → Bool
is_replaced none p = false
is_replaced (some id) p = p.id == id

-- The active peers of a user, and those on a server.
abbrev pub of_user : ℕ → Peer → Bool
of_user user_id p = p.user_id == user_id && peer_is_active p.status

abbrev pub on_server : ℕ → Peer → Bool
on_server server_id p = p.server_id == server_id && peer_is_active p.status

abbrev pub counted : (Peer → Bool) → Option ℕ → List Peer → ℕ
counted p replacing peers = count (λ q. p q && not (is_replaced replacing q)) peers

-- `existingActive.map((p) => p.assignedIp).filter((ip) => ip !== null)`
abbrev pub with_ip : Option Text → List Text → List Text
with_ip none ips = ips
with_ip (some ip) ips = ip ∷ ips

pub used_ips : ℕ → List Peer → List Text
used_ips server_id [] = []
used_ips server_id (p ∷ ps) =
    let rest = used_ips server_id ps in
    if on_server server_id p then with_ip p.assigned_ip rest else rest

abbrev excluded : List ℕ → ℕ → Bool
excluded allowed country_id = ltb 0 (length allowed) && not (any (λ c. c == country_id) allowed)

-- `subscription.tariff`
abbrev tariff_of : Option Subscription → Db → Option Tariff
tariff_of none db = none
tariff_of (some s) db = find (λ t. t.id == s.tariff_id) db.tariffs

abbrev available : Option Server → Option Server
available none = none
available (some s) = if server_is_active s.status then some s else none

pub new_peer : World → Fresh → ℕ → ℕ → Option String → Text → Peer
new_peer world fresh user_id server_id label ip = record {
  id = fresh.id;
  user_id = user_id;
  server_id = server_id;
  label = label;
  public_key = fresh.public_key;
  private_key_enc = world.crypto.encrypt fresh.private_key;
  preshared_key_enc = world.crypto.encrypt fresh.preshared_key;
  assigned_ip = some ip;
  status = PeerStatus.active;
  route_list_version_id = none;
  needs_update = false;
}

-- The unique constraints on the rows of a server: its addresses and its public keys.
abbrev same_ip : Text → Option Text → Bool
same_ip ip none = false
same_ip ip (some other) = text_eq other ip

clashes : Fresh → ℕ → Text → Db → Bool
clashes fresh server_id ip db =
    any
      (λ p.
        p.server_id == server_id && (same_ip ip p.assigned_ip || p.public_key == fresh.public_key))
      db.peers

pub create :
    World → Fresh → (now user_id server_id : ℕ) → Option String → Option ℕ → Exec Db Created
unfolding used_ips clashes
create world fresh now user_id server_id label replacing = do
  active ← gets (get_active now user_id)
  subscription ← or_throw (forbidden "No active subscription") active
  found ← gets (tariff_of (some subscription))
  tariff ← or_throw (internal "Inconsistent query result") found
  devices ← gets (λ db. counted (of_user user_id) replacing db.peers)
  throw_if (leb tariff.device_limit devices) (forbidden "Device limit reached")
  located ← gets (find_server server_id)
  server ← or_throw (not_found "Server not available") (available located)
  or_throw (bad_request "Server not registered yet") server.server_public_key
  throw_if (excluded tariff.allowed_countries server.country_id)
      (forbidden "Country not included in your tariff")
  load ← gets (λ db. counted (on_server server_id) replacing db.peers)
  throw_if (leb server.max_peers load) (forbidden "Server is at capacity")
  used ← gets (λ db. used_ips server_id db.peers)
  ip ← lift (next_free_ip world.number world.subnet world.server_address used)
  lift (world.add_peer server fresh.public_key fresh.preshared_key ip)
  clash ← gets (clashes fresh server_id ip)
  throw_if clash (internal "Unique constraint failed")
  modify (λ db. record db { peers = new_peer world fresh user_id server_id label ip ∷ db.peers })
  pure (record { id = fresh.id; assigned_ip = ip })

abbrev owned_by : ℕ → Option Peer → Option Peer
owned_by user_id none = none
owned_by user_id (some p) = if p.user_id == user_id then some p else none

pub load_owned : (user_id peer_id : ℕ) → Exec Db Peer
load_owned user_id peer_id = do
  found ← gets (λ db. find (λ p. p.id == peer_id) db.peers)
  peer ← or_throw (not_found "Peer not found") (owned_by user_id found)
  throw_if (not (peer_is_active peer.status)) (bad_request "Peer is revoked")
  pure peer

abbrev revoked : Peer → Peer
revoked p = record p { status = PeerStatus.revoked; assigned_ip = none }

-- What the agent answers to the removal does not matter: a failed call is tolerated.
pub revoke : (user_id peer_id : ℕ) → Exec Db (Unit {0})
revoke user_id peer_id = do
  peer ← load_owned user_id peer_id
  modify (λ db. record db { peers = update_where (λ p. p.id == peer.id) revoked db.peers })

-- The new peer first, then the old one is revoked.
pub recreate : World → Fresh → (now user_id peer_id : ℕ) → Exec Db Created
recreate world fresh now user_id peer_id = do
  peer ← load_owned user_id peer_id
  created ← create world fresh now user_id peer.server_id peer.label (some peer.id)
  revoke user_id peer_id
  pure created

pub admin_delete : (peer_id : ℕ) → Exec Db (Unit {0})
admin_delete peer_id = do
  found ← gets (λ db. find (λ p. p.id == peer_id) db.peers)
  or_throw (not_found "Peer not found") found
  modify (λ db. record db { peers = filter (λ p. not (p.id == peer_id)) db.peers })
