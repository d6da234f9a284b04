-- ===== src/Api/Servers.antt =====
-- apps/api/src/servers/servers.controller.ts, but for the catalogue of countries, the install
-- scripts, the agent's bundle and diagnostics, and provisioning after a server was added.
use fredoomeaxima.Common.{ℕ, String, Bool, true, false, Option, none, some, if◌then◌else◌}
use fredoomeaxima.Text.{Text, codes}
use fredoomeaxima.Exec.{Exec, pure, gets, or_throw, bad_request, ◌>>=◌, ◌>>◌}
use fredoomeaxima.Database.{Db, Server}
use fredoomeaxima.Servers.{
  CreateServerInput, UpdateServerInput, list_available, list as list_servers, get as get_server,
  create as create_server, update as update_server, register as register_server,
  heartbeat as record_heartbeat, remove as remove_server, restart_wg,
}
use fredoomeaxima.Servers.Countries.{
  CreateCountryInput, create_country as add_country, update_country as change_country,
  remove_country as drop_country,
}
use fredoomeaxima.Audit.{record_action}
use fredoomeaxima.Api.{
  AuthUser, Method, Endpoint, Env, Reply, starts_with, drop, current_user, for_users, for_admins,
  for_all, action_on,
}

pub data ServersCall : Type 0 where
  available : (country_id : Option ℕ) → ServersCall
  register : (id install_token server_public_key : ℕ) → ServersCall
  heartbeat : (id : ℕ) → (authorization : Option Text) → ServersCall
  create_country : CreateCountryInput → ServersCall
  update_country : (id : ℕ) → (code name : Option String) → ServersCall
  remove_country : (id : ℕ) → ServersCall
  all_servers : ServersCall
  get remove restart : (id : ℕ) → ServersCall
  create : CreateServerInput → (provision : Bool) → (ssh_password : Option Text) → ServersCall
  update : (id : ℕ) → UpdateServerInput → ServersCall

unfoldable pub endpoint : ServersCall → Endpoint
endpoint (ServersCall.available country_id) = for_users Method.get "servers/available"
endpoint (ServersCall.register id install_token server_public_key) =
    for_all Method.post "servers/:id/register"
endpoint (ServersCall.heartbeat id authorization) = for_all Method.post "servers/:id/heartbeat"
endpoint (ServersCall.create_country dto) = for_admins Method.post "admin/countries"
endpoint (ServersCall.update_country id code name) = for_admins Method.patch "admin/countries/:id"
endpoint (ServersCall.remove_country id) = for_admins Method.delete "admin/countries/:id"
endpoint ServersCall.all_servers = for_admins Method.get "admin/servers"
endpoint (ServersCall.get id) = for_admins Method.get "admin/servers/:id"
endpoint (ServersCall.create dto provision ssh_password) = for_admins Method.post "admin/servers"
endpoint (ServersCall.update id dto) = for_admins Method.patch "admin/servers/:id"
endpoint (ServersCall.remove id) = for_admins Method.delete "admin/servers/:id"
endpoint (ServersCall.restart id) = for_admins Method.post "admin/servers/:id/restart"

-- The token of `Authorization: Bearer`, else the empty one.
unfoldable pub agent_token_of : Option Text → Text
unfolding starts_with drop
agent_token_of none = codes ""
agent_token_of (some auth) = if starts_with (codes "Bearer ") auth then drop 7 auth else codes ""

-- The part of `create` that is for `provision`. The run that it starts in the background is not
-- part of the request.
unfoldable pub start_provisioning : AuthUser → Server → Bool → Option Text → Exec Db Bool
start_provisioning admin server false ssh_password = pure false
start_provisioning admin server true ssh_password = do
  or_throw (bad_request "sshPassword is required to provision over SSH") ssh_password
  record_action (action_on admin "server.provision" "VpnServer" server.id)
  pure true

unfoldable pub handle : {Body : Type 0} → Env Body → Option AuthUser → ServersCall → Exec Db Reply
handle env who (ServersCall.available country_id) = do
  rows ← gets (list_available country_id)
  pure (Reply.servers rows)
handle env who (ServersCall.register id install_token server_public_key) = do
  register_server env.now id install_token server_public_key
  pure Reply.done
handle env who (ServersCall.heartbeat id authorization) = do
  record_heartbeat env.crypto env.now id (env.token_of (agent_token_of authorization))
  pure Reply.done
handle env who (ServersCall.create_country dto) = do
  admin ← current_user who
  add_country env.new_id dto
  record_action (action_on admin "country.create" "VpnCountry" env.new_id)
  pure Reply.done
handle env who (ServersCall.update_country id code name) = do
  admin ← current_user who
  change_country id code name
  record_action (action_on admin "country.update" "VpnCountry" id)
  pure Reply.done
handle env who (ServersCall.remove_country id) = do
  admin ← current_user who
  drop_country id
  record_action (action_on admin "country.delete" "VpnCountry" id)
  pure Reply.done
handle env who ServersCall.all_servers = do rows ← gets list_servers; pure (Reply.servers rows)
handle env who (ServersCall.get id) = do row ← get_server id; pure (Reply.server row)
handle env who (ServersCall.create dto provision ssh_password) = do
  admin ← current_user who
  server ← create_server env.crypto env.new_id env.new_install_token env.new_agent_token dto
  record_action (action_on admin "server.create" "VpnServer" server.id)
  started ← start_provisioning admin server provision ssh_password
  pure (Reply.provisioning server started)
handle env who (ServersCall.update id dto) = do
  admin ← current_user who
  update_server id dto
  record_action (action_on admin "server.update" "VpnServer" id)
  pure Reply.done
handle env who (ServersCall.remove id) = do
  admin ← current_user who
  remove_server id
  record_action (action_on admin "server.delete" "VpnServer" id)
  pure Reply.done
handle env who (ServersCall.restart id) = do
  admin ← current_user who
  restart_wg env.restart_agent id
  record_action (action_on admin "server.restart" "VpnServer" id)
  pure Reply.done
