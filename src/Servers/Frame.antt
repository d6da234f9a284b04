-- ===== src/Servers/Frame.antt =====
-- What the methods on servers keep that leave the devices alone.
use fredoomeaxima.Common.{ℕ, Bool, not, ◌==◌, filter, Option, none, some}
use fredoomeaxima.Exec.{Result}
use fredoomeaxima.Database.{Db, Server, Peer}
use fredoomeaxima.Servers.{
  Crypto, CreateServerInput, UpdateServerInput, get_raw, get, remove, create, update, register,
  agent_token, heartbeat, restart_wg,
}
use fredoomeaxima.Exec.Keeps.{Keeps, Keeps-bind, keeps_rules}
use fredoomeaxima.Database.Frame.{Frame}

module _ (P : Db → Type 0) (frame : Frame P) where
  pub get_raw-Keeps : (id : ℕ) → Keeps P (get_raw id)
  unfolding get_raw
  get_raw-Keeps id = search keeps_rules depth 8

  pub create-Keeps :
      (crypto : Crypto) (new_id install_token agent_token : ℕ) (input : CreateServerInput)
      → Keeps P (create crypto new_id install_token agent_token input)
  unfolding create
  create-Keeps crypto new_id install_token agent_token input =
      search (keeps_rules, frame.servers) depth 12

  pub update-Keeps : (id : ℕ) (input : UpdateServerInput) → Keeps P (update id input)
  unfolding update
  update-Keeps id input = search (keeps_rules, get_raw-Keeps, frame.servers) depth 12

  pub register-Keeps :
      (now server_id install_token server_public_key : ℕ)
      → Keeps P (register now server_id install_token server_public_key)
  unfolding register
  register-Keeps now server_id install_token server_public_key =
      search (keeps_rules, get_raw-Keeps, frame.servers) depth 12

  agent_token-Keeps : (crypto : Crypto) (enc : Option ℕ) → Keeps P (agent_token crypto enc)
  unfolding agent_token
  agent_token-Keeps crypto none = search keeps_rules
  agent_token-Keeps crypto (some c) = search keeps_rules depth 8

  pub heartbeat-Keeps :
      (crypto : Crypto) (now server_id token : ℕ) → Keeps P (heartbeat crypto now server_id token)
  unfolding heartbeat
  heartbeat-Keeps crypto now server_id token =
      search (keeps_rules, get_raw-Keeps, agent_token-Keeps, frame.servers) depth 12

  pub restart_wg-Keeps :
      (restart_agent : Server → Result (Unit {0})) (id : ℕ) → Keeps P (restart_wg restart_agent id)
  unfolding restart_wg
  restart_wg-Keeps restart_agent id = search (keeps_rules, get_raw-Keeps) depth 8

  pub get-Keeps : (id : ℕ) → Keeps P (get id)
  unfolding get
  get-Keeps id = search keeps_rules depth 8

  pub remove-Keeps :
      ((db : Db) (p : Peer → Bool) → P db → P (record db { peers = filter p db.peers }))
      → (id : ℕ) → Keeps P (remove id)
  unfolding remove
  remove-Keeps kept id = Keeps-bind _ _ (get_raw-Keeps id) λ server. record {
    at = λ db p.
        kept
          (record db {
            servers = filter (λ s. not (s.id == id)) db.servers;
            health_checks = filter (λ h. not (h.server_id == id)) db.health_checks;
          })
          (λ q. not (q.server_id == id)) (frame.health_checks _ _ (frame.servers db _ p));
  }
