-- ===== src/Api/Peers.antt =====
-- apps/api/src/peers/peers.controller.ts, but for the listing and the downloads.
use fredoomeaxima.Common.{ℕ, String, Option, none}
use fredoomeaxima.Exec.{Exec, pure, ◌>>=◌, ◌>>◌}
use fredoomeaxima.Database.{Db}
use fredoomeaxima.Peers.{
  create as create_peer, revoke as revoke_peer, recreate as recreate_peer,
  admin_delete as delete_peer,
}
use fredoomeaxima.Audit.{record_action}
use fredoomeaxima.Api.{
  AuthUser, Method, Endpoint, Env, Reply, current_user, for_users, for_admins, action_on,
}

pub data PeersCall : Type 0 where
  create : (server_id : ℕ) → (label : Option String) → PeersCall
  revoke recreate admin_delete : (id : ℕ) → PeersCall

unfoldable pub endpoint : PeersCall → Endpoint
endpoint (PeersCall.create server_id label) = for_users Method.post "peers"
endpoint (PeersCall.revoke id) = for_users Method.delete "peers/:id"
endpoint (PeersCall.recreate id) = for_users Method.post "peers/:id/recreate"
endpoint (PeersCall.admin_delete id) = for_admins Method.delete "admin/peers/:id"

unfoldable pub handle : {Body : Type 0} → Env Body → Option AuthUser → PeersCall → Exec Db Reply
handle env who (PeersCall.create server_id label) = do
  user ← current_user who
  peer ← create_peer env.world env.fresh env.now user.id server_id label none
  pure (Reply.created peer)
handle env who (PeersCall.revoke id) = do
  user ← current_user who
  revoke_peer user.id id
  pure Reply.done
handle env who (PeersCall.recreate id) = do
  user ← current_user who
  peer ← recreate_peer env.world env.fresh env.now user.id id
  pure (Reply.created peer)
handle env who (PeersCall.admin_delete id) = do
  admin ← current_user who
  delete_peer id
  record_action (action_on admin "peer.delete" "WireguardPeer" id)
  pure Reply.done
