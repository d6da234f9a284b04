-- ===== src/Peers/Limits.antt =====
-- The limits on peers: devices of a user, places on a server, addresses; and replacing a peer.
use fredoomeaxima.Common.{
  Bool-cases, inl, inr, true, [], ℕ, suc, ◌≡◌, ◌≢◌, ◌≤◌, refl, ap₂, String, List, ◌∷◌, Option, none,
  some, arith, ◌==◌, ==-refl, find, All,
}
use fredoomeaxima.Text.{Text}
use fredoomeaxima.Exec.{Error, ok, err}
use fredoomeaxima.Database.{Db, Server, Peer, Tariff, Subscription}
use fredoomeaxima.Database.Tables.{count}
use fredoomeaxima.Subscriptions.{get_active}
use fredoomeaxima.Servers.{find_server, peer_is_active}
use fredoomeaxima.IpAlloc.Fresh.{ReadsOctets, next_free_ip_fresh}
use fredoomeaxima.Peers.{
  World, Fresh, Created, create, recreate, load_owned, used_ips, with_ip, counted, of_user,
  on_server, available, new_peer,
}
use fredoomeaxima.Peers.Creation.{create-Permission, create_refused}

counted-new_peer :
    (world : World) (fresh : Fresh) (user_id server_id : ℕ) (label : Option String) (ip : Text)
    (peers : List Peer)
    → (counted (of_user user_id) none (new_peer world fresh user_id server_id label ip ∷ peers)
        ≡ suc (counted (of_user user_id) none peers))
      × (counted
            (on_server server_id)
            none
            (new_peer world fresh user_id server_id label ip ∷ peers)
          ≡ suc (counted (on_server server_id) none peers))
unfolding count new_peer peer_is_active
counted-new_peer world fresh user_id server_id label ip peers =
    (rw (==-refl user_id) refl, rw (==-refl server_id) refl)

-- A peer is created only for an active subscription and on a server in service. Afterwards the
-- user has at most as many active peers as the tariff allows, and the server at most its maximum.
pub create_within_limits :
    (world : World) (fresh : Fresh) (now user_id server_id : ℕ) (label : Option String) (db : Db)
    (created : Created)
    → (create world fresh now user_id server_id label none db).0 ≡ ok created
    → let after = (create world fresh now user_id server_id label none db).1 in
      (sub : Subscription) × (tariff : Tariff) × (server : Server) × (get_active now user_id db
        ≡ some sub)
      × (find (λ t. t.id == sub.tariff_id) db.tariffs ≡ some tariff)
      × (available (find_server server_id db) ≡ some server)
      × (counted (of_user user_id) none after.peers ≤ tariff.device_limit)
      × (counted (on_server server_id) none after.peers ≤ server.max_peers)
create_within_limits world fresh now user_id server_id label db created h =
    let p = create-Permission world fresh now user_id server_id label none db created h in
    let more = counted-new_peer world fresh user_id server_id label created.assigned_ip db.peers in
    (
      p.subscription,
      p.tariff,
      p.server,
      p.subscribed,
      p.under,
      p.located,
      rw p.written (rw more.0 (omega (arith, p.few_devices))),
      rw p.written (rw more.1 (omega (arith, p.has_room))),
    )

with_ip-differs :
    (ip : Text) (o : Option Text) (rest : List Text)
    → All (λ used. used ≢ ip) (with_ip o rest)
    → (o ≢ some ip) × All (λ used. used ≢ ip) rest
with_ip-differs ip none rest a = (λ e. ground arith, a)
with_ip-differs ip (some t) rest a = (λ e. a.0 (cc e), a.1)

used_ips-differ :
    (server_id : ℕ) (ip : Text) (peers : List Peer)
    → All (λ used. used ≢ ip) (used_ips server_id peers)
    → All (λ p. on_server server_id p ≡ true → p.assigned_ip ≢ some ip) peers
unfolding used_ips
used_ips-differ server_id ip [] a = tt
used_ips-differ server_id ip (p ∷ ps) a = elim (Bool-cases (on_server server_id p)) [
  | inl active ↦
      let both = with_ip-differs ip p.assigned_ip (used_ips server_id ps) (rw active at a) in
      (λ _. both.0, used_ips-differ server_id ip ps both.1)
  | inr other ↦ (λ active. absurd (ground arith), used_ips-differ server_id ip ps (rw other at a))
]

-- Where `Number` reads octets, a new peer's address differs from the addresses of the active peers
-- on its server.
pub create_fresh_ip :
    (world : World) (fresh : Fresh) (now user_id server_id : ℕ) (label : Option String)
    (replacing : Option ℕ) (db : Db) (created : Created)
    → ReadsOctets world.number
    → (create world fresh now user_id server_id label replacing db).0 ≡ ok created
    → All (λ p. on_server server_id p ≡ true → p.assigned_ip ≢ some created.assigned_ip) db.peers
create_fresh_ip world fresh now user_id server_id label replacing db created reads h =
    used_ips-differ server_id created.assigned_ip db.peers (
      next_free_ip_fresh world.number world.subnet world.server_address
        (used_ips server_id db.peers) created.assigned_ip reads
        (create-Permission world fresh now user_id server_id label replacing db created h).ip_taken)

-- A replacement whose new peer cannot be created changes nothing: the old peer stays as it is.
pub recreate_refused :
    (world : World) (fresh : Fresh) (now user_id peer_id : ℕ) (db : Db) (peer : Peer) (e : Error)
    → load_owned user_id peer_id db ≡ (ok peer, db)
    → (create world fresh now user_id peer.server_id peer.label (some peer.id) db).0 ≡ err e
    → recreate world fresh now user_id peer_id db ≡ (err e, db)
unfolding recreate
recreate_refused world fresh now user_id peer_id db peer e loaded h =
    let kept =
      create_refused world fresh now user_id peer.server_id peer.label (some peer.id) db e h in
    let both : create world fresh now user_id peer.server_id peer.label (some peer.id) db
        ≡ (err e, db) =
      ap₂ (λ r s. (r, s)) h kept in
    rw loaded (rw both refl)
