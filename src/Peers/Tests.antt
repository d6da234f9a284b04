-- ===== src/Peers/Tests.antt =====
-- The theorems on peers at the sample tables: Ada has no device yet, and the server has room.
use fredoomeaxima.Common.{ℕ, ◌≡◌, ◌≤◌, ◌==◌, refl, false, [], ◌∷◌, none, some, find, filter, any}
use fredoomeaxima.Text.{codes}
use fredoomeaxima.Exec.{Error, Result, ok, err, not_found, unavailable, lift}
use fredoomeaxima.Database.{
  Db, Server, ServerStatus, PaymentStatus, Peer, PeerStatus, Subscription, Tariff,
}
use fredoomeaxima.Database.Tables.{count, greatest, greater}
use fredoomeaxima.Database.Samples.{sample, helsinki}
use fredoomeaxima.Subscriptions.{get_active, is_running, is_active}
use fredoomeaxima.Servers.{find_server, server_is_active, peer_is_active}
use fredoomeaxima.IpAlloc.Samples.{digits_of, subnet, server_address, taken_first}
use fredoomeaxima.Peers.{
  World, Fresh, Created, create, recreate, load_owned, used_ips, counted, of_user, on_server,
  available, new_peer, clashes,
}
use fredoomeaxima.Peers.Creation.{create_refused}
use fredoomeaxima.Peers.Limits.{create_within_limits, recreate_refused}

abbrev installed : Server
installed = record (helsinki ServerStatus.active) { server_public_key = some 88 }

abbrev db : Db
db = sample PaymentStatus.pending installed

-- The agents take every peer, or none.
abbrev world : Result (Unit {0}) → World
world answer = record {
  number = digits_of;
  subnet = subnet;
  server_address = server_address;
  crypto = record { encrypt = λ n. n; decrypt = λ n. ok n };
  add_peer = λ server key preshared ip. answer;
}

abbrev keys : Fresh
keys = record { id = 40; private_key = 1; public_key = 2; preshared_key = 3 }

abbrev made : Created
made = record { id = 40; assigned_ip = codes "10.66.66.2" }

creating : ℕ
unfolding create get_active is_running is_active greatest greater find filter count server_is_active
    peer_is_active any used_ips new_peer clashes load_owned
creating = 0

created_ok : (create (world (ok tt)) keys 1000 1 5 none none db).0 ≡ ok made
unfolding creating
created_ok = rw (taken_first, lift) refl

abbrev down : Error
down = unavailable "agent"

refused_down : (create (world (err down)) keys 1000 1 5 none none db).0 ≡ err down
unfolding creating
refused_down = rw (taken_first, lift) refl

create_within_limits_example :
    let after = (create (world (ok tt)) keys 1000 1 5 none none db).1 in
    (sub : Subscription) × (tariff : Tariff) × (server : Server) × (get_active 1000 1 db ≡ some sub)
    × (find (λ t. t.id == sub.tariff_id) db.tariffs ≡ some tariff)
    × (available (find_server 5 db) ≡ some server)
    × (counted (of_user 1) none after.peers ≤ tariff.device_limit)
    × (counted (on_server 5) none after.peers ≤ server.max_peers)
create_within_limits_example =
    create_within_limits (world (ok tt)) keys 1000 1 5 none db made created_ok

create_refused_example : (create (world (err down)) keys 1000 1 5 none none db).1 ≡ db
create_refused_example =
    create_refused (world (err down)) keys 1000 1 5 none none db down refused_down

-- Ada's device, on a server that was disabled since.
abbrev phone : Peer
phone = record {
  id = 41;
  user_id = 1;
  server_id = 5;
  label = none;
  public_key = 4;
  private_key_enc = 5;
  preshared_key_enc = 6;
  assigned_ip = some (codes "10.66.66.2");
  status = PeerStatus.active;
  route_list_version_id = none;
  needs_update = false;
}

abbrev closed_db : Db
closed_db = record (sample PaymentStatus.pending (helsinki ServerStatus.disabled)) {
  peers = phone ∷ [];
}

recreate_refused_example :
    recreate (world (ok tt)) keys 1000 1 41 closed_db
    ≡ (err (not_found "Server not available"), closed_db)
unfolding creating
recreate_refused_example =
    recreate_refused (world (ok tt)) keys 1000 1 41 closed_db phone
      (not_found "Server not available") refl refl
