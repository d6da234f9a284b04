-- ===== src/Peers/Configs.antt =====
-- apps/api/src/peers/peers.service.ts: the configuration that a user downloads for a peer.
use fredoomeaxima.Common.{ℕ, [], ◌∷◌, ◌++◌, Option, none, some, ◌==◌, find}
use fredoomeaxima.Text.{Text, codes, to_text}
use fredoomeaxima.Exec.{bad_request, Exec, pure, gets, lift, or_throw, ◌>>=◌}
use fredoomeaxima.Database.{Db, Server, Country}
use fredoomeaxima.Servers.{Crypto, find_server}
use fredoomeaxima.Peers.{load_owned}
use fredoomeaxima.WireGuard.{build_config_name, render_client_config}

-- How keys and identifiers read, `toUpperCase`, and `WG_DNS`.
pub record Printing : Type 0 where
  pub key : ℕ → Text
  pub id : ℕ → Text
  pub upper : Text → Text
  pub wg_dns : Text

public_key_of : Option Server → Option (Server × ℕ)
public_key_of none = none
public_key_of (some s) = elim s.server_public_key [ none ↦ none | some key ↦ some (s, key) ]

-- `${peer.assignedIp}`
address_of : Option Text → Text
address_of none = codes "null"
address_of (some ip) = ip

pub get_config : Printing → Crypto → (user_id peer_id : ℕ) → Exec Db Text
unfolding public_key_of address_of
get_config printing crypto user_id peer_id = do
  peer ← load_owned user_id peer_id
  found ← gets (find_server peer.server_id)
  server ← or_throw (bad_request "Server public key missing") (public_key_of found)
  private_key ← lift (crypto.decrypt peer.private_key_enc)
  preshared_key ← lift (crypto.decrypt peer.preshared_key_enc)
  pure (
      render_client_config (record {
        client_private_key = printing.key private_key;
        client_address = address_of peer.assigned_ip ++ codes "/32";
        dns = printing.wg_dns;
        server_public_key = printing.key server.1;
        preshared_key = printing.key preshared_key;
        endpoint = server.0.ip ++ (codes ":" ++ to_text server.0.wg_endpoint_port);
        allowed_ips = codes "0.0.0.0/0" ∷ [];
      }))

code_of : Option Country → Text
code_of none = codes "XX"
code_of (some c) = codes c.code

-- `server?.country?.code ?? 'XX'`
country_code : Option Server → Db → Text
unfolding code_of
country_code none db = codes "XX"
country_code (some s) db = code_of (find (λ c. c.id == s.country_id) db.countries)

pub record ConfigFile : Type 0 where
  pub filename : Text
  pub content : Text

pub get_config_file : Printing → Crypto → (user_id peer_id : ℕ) → Exec Db ConfigFile
unfolding country_code
get_config_file printing crypto user_id peer_id = do
  content ← get_config printing crypto user_id peer_id
  peer ← load_owned user_id peer_id
  found ← gets (find_server peer.server_id)
  code ← gets (country_code found)
  pure (record {
    filename = build_config_name printing.upper code (printing.id peer.id) ++ codes ".conf";
    content = content;
  })
