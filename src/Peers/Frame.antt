-- ===== src/Peers/Frame.antt =====
-- What the methods of the service keep that does not depend on the devices.
use fredoomeaxima.Common.{ℕ, String, List, Option}
use fredoomeaxima.Exec.Keeps.{Keeps, keeps_rules}
use fredoomeaxima.Database.{Db, Peer}
use fredoomeaxima.Peers.{World, Fresh, create, revoke, recreate, admin_delete, load_owned}

module _ (P : Db → Type 0)
    (devices : (db : Db) (rows : List Peer) → P db → P (record db { peers = rows })) where
  pub create-Keeps :
      (world : World) (fresh : Fresh) (now user_id server_id : ℕ) (label : Option String)
      (replacing : Option ℕ)
      → Keeps P (create world fresh now user_id server_id label replacing)
  unfolding create
  create-Keeps world fresh now user_id server_id label replacing =
      search (keeps_rules, devices) depth 40

  load_owned-Keeps : (user_id peer_id : ℕ) → Keeps P (load_owned user_id peer_id)
  unfolding load_owned
  load_owned-Keeps user_id peer_id = search keeps_rules depth 12

  pub revoke-Keeps : (user_id peer_id : ℕ) → Keeps P (revoke user_id peer_id)
  unfolding revoke
  revoke-Keeps user_id peer_id = search (keeps_rules, load_owned-Keeps, devices) depth 8

  pub recreate-Keeps :
      (world : World) (fresh : Fresh) (now user_id peer_id : ℕ)
      → Keeps P (recreate world fresh now user_id peer_id)
  unfolding recreate
  recreate-Keeps world fresh now user_id peer_id =
      search (keeps_rules, load_owned-Keeps, create-Keeps, revoke-Keeps) depth 12

  pub admin_delete-Keeps : (peer_id : ℕ) → Keeps P (admin_delete peer_id)
  unfolding admin_delete
  admin_delete-Keeps peer_id = search (keeps_rules, devices) depth 12
