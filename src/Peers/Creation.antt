-- ===== src/Peers/Creation.antt =====
-- `create`: what it writes when it is refused and when it succeeds.
use fredoomeaxima.Common.{
  ℕ, ◌≡◌, ◌<◌, ap, subst, ◌∙◌, String, false, ◌∷◌, Option, some, arith, leb, ◌==◌, find,
}
use fredoomeaxima.Exec.{Error, ok, err}
use fredoomeaxima.Exec.Steps.{
  or_throw_ok, lift_ok, throw_if_ok, or_throw_err, lift_err, throw_if_err,
}
use fredoomeaxima.Database.{Db, Server, Tariff, Subscription}
use fredoomeaxima.Subscriptions.{get_active}
use fredoomeaxima.Servers.{find_server}
use fredoomeaxima.IpAlloc.{next_free_ip}
use fredoomeaxima.Peers.{
  World, Fresh, Created, create, used_ips, counted, of_user, on_server, excluded, available,
  new_peer, clashes,
}

not_err : {A : Type 0} {a : A} {e : Error} → ok a ≡ err e → ⊥
not_err h = ground arith

-- A creation that is refused, whatever for, writes nothing.
pub create_refused :
    (world : World) (fresh : Fresh) (now user_id server_id : ℕ) (label : Option String)
    (replacing : Option ℕ) (db : Db) (e : Error)
    → (create world fresh now user_id server_id label replacing db).0 ≡ err e
    → (create world fresh now user_id server_id label replacing db).1 ≡ db
unfolding create
create_refused world fresh now user_id server_id label replacing db e h =
    or_throw_err _ (get_active now user_id db) _ db e h λ subscription h1.
      or_throw_err _ (find (λ t. t.id == subscription.tariff_id) db.tariffs) _ db e h1 λ tariff h2.
        throw_if_err (leb tariff.device_limit (counted (of_user user_id) replacing db.peers)) _ _ db
          e h2
          λ h3. or_throw_err _ (available (find_server server_id db)) _ db e h3 λ server h4.
            or_throw_err _ server.server_public_key _ db e h4 λ _ h5.
              throw_if_err (excluded tariff.allowed_countries server.country_id) _ _ db e h5 λ h6.
                throw_if_err
                  (leb server.max_peers (counted (on_server server_id) replacing db.peers)) _ _ db e
                  h6
                  λ h7.
                    lift_err
                      (next_free_ip world.number world.subnet world.server_address
                        (used_ips server_id db.peers))
                      _ db e h7
                      λ ip h8.
                        lift_err (world.add_peer server fresh.public_key fresh.preshared_key ip) _
                          db e h8
                          λ _ h9.
                            throw_if_err (clashes fresh server_id ip db) _ _ db e h9
                              λ h10. absurd (not_err h10)

-- What held when a peer was created, and what was written.
pub record Permission (world : World) (fresh : Fresh) (now user_id server_id : ℕ)
    (label : Option String) (replacing : Option ℕ) (db : Db) (created : Created) : Type 0 where
  pub subscription : Subscription
  pub tariff : Tariff
  pub server : Server
  pub subscribed : get_active now user_id db ≡ some subscription
  pub under : find (λ t. t.id == subscription.tariff_id) db.tariffs ≡ some tariff
  pub few_devices : counted (of_user user_id) replacing db.peers < tariff.device_limit
  pub located : available (find_server server_id db) ≡ some server
  pub country_allowed : excluded tariff.allowed_countries server.country_id ≡ false
  pub has_room : counted (on_server server_id) replacing db.peers < server.max_peers
  pub ip_taken :
      next_free_ip world.number world.subnet world.server_address (used_ips server_id db.peers)
      ≡ ok created.assigned_ip
  pub pushed :
      world.add_peer server fresh.public_key fresh.preshared_key created.assigned_ip ≡ ok tt
  pub written : create world fresh now user_id server_id label replacing db ≡ (
    ok created,
    record db {
      peers = new_peer world fresh user_id server_id label created.assigned_ip ∷ db.peers;
    },
  )

beyond : (m n : ℕ) → leb m n ≡ false → n < m
beyond m n h = ground arith

ok_injective : {A : Type 0} {a b : A} → ok a ≡ ok b → a ≡ b
ok_injective h = cc h

pub create-Permission :
    (world : World) (fresh : Fresh) (now user_id server_id : ℕ) (label : Option String)
    (replacing : Option ℕ) (db : Db) (created : Created)
    → (create world fresh now user_id server_id label replacing db).0 ≡ ok created
    → Permission world fresh now user_id server_id label replacing db created
unfolding create
create-Permission world fresh now user_id server_id label replacing db created h =
    let a = or_throw_ok _ (get_active now user_id db) _ db created h in
    let b = or_throw_ok _ (find (λ t. t.id == a.0.tariff_id) db.tariffs) _ db created a.2 in
    let c =
      throw_if_ok (leb b.0.device_limit (counted (of_user user_id) replacing db.peers)) _ _ db
        created b.2 in
    let d = or_throw_ok _ (available (find_server server_id db)) _ db created c.1 in
    let k = or_throw_ok _ d.0.server_public_key _ db created d.2 in
    let f = throw_if_ok (excluded b.0.allowed_countries d.0.country_id) _ _ db created k.2 in
    let g =
      throw_if_ok (leb d.0.max_peers (counted (on_server server_id) replacing db.peers)) _ _ db
        created f.1 in
    let i =
      lift_ok
        (next_free_ip world.number world.subnet world.server_address (used_ips server_id db.peers))
        _ db created g.1 in
    let j =
      lift_ok (world.add_peer d.0 fresh.public_key fresh.preshared_key i.0) _ db created i.2 in
    let l = throw_if_ok (clashes fresh server_id i.0 db) _ _ db created j.2 in
    let ip : i.0 ≡ created.assigned_ip = ap (λ c. c.assigned_ip) (ok_injective l.1) in
    record {
      subscription = a.0;
      tariff = b.0;
      server = d.0;
      subscribed = a.1;
      under = b.1;
      few_devices = beyond _ _ c.0;
      located = d.1;
      country_allowed = f.0;
      has_room = beyond _ _ g.0;
      ip_taken = i.1 ∙ ap ok ip;
      pushed =
          subst (λ t. world.add_peer d.0 fresh.public_key fresh.preshared_key t ≡ ok tt) ip j.1;
      written =
          a.3
          ∙ b.3
          ∙ c.2
          ∙ d.3
          ∙ k.3
          ∙ f.2
          ∙ g.2
          ∙ i.3
          ∙ j.3
          ∙ l.2
          ∙ ap
              (λ c. (
                ok c,
                record db {
                  peers = new_peer world fresh user_id server_id label c.assigned_ip ∷ db.peers;
                },
              ))
              (ok_injective l.1);
    }
