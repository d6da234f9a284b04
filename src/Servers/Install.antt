-- ===== src/Servers/Install.antt =====
-- apps/api/src/servers/servers.service.ts: install instructions, and what the agent reports. How
-- identifiers and tokens read, the configuration and the agent's answers are arguments.
use fredoomeaxima.Common.{ℕ, Bool, true, false, ◌||◌, [], ◌++◌, Option, none, some}
use fredoomeaxima.Text.{Text, codes}
use fredoomeaxima.Exec.{
  Result, ok, err, bad_request, Exec, pure, lift, or_throw, throw_if, ◌>>=◌, ◌>>◌,
}
use fredoomeaxima.Database.{Db, Server}
use fredoomeaxima.Servers.{Crypto, get_raw, differs}
use fredoomeaxima.Servers.InstallScript.{InstallScriptParams, build_install_script}

pub record InstallSettings : Type 0 where
  pub panel_url : Text
  pub print : ℕ → Text
  pub wg_subnet_cidr : Text
  pub wg_server_address : Text

pub record InstallInstructions : Type 0 where
  pub command : Text
  pub script : Text

-- No stored token stands for the empty one.
token_of : Crypto → Option ℕ → Result (Option ℕ)
token_of crypto none = ok none
token_of crypto (some enc) = elim (crypto.decrypt enc) [
  | ok token ↦ ok (some token)
  | err e ↦ err e
]

-- What `buildInstallScript` is called with: an agent token that is absent reads as the empty text.
script_params : InstallSettings → Server → (install_token : ℕ) → Option ℕ → InstallScriptParams
script_params settings server install_token agent_token = record {
  panel_url = settings.panel_url;
  server_id = settings.print server.id;
  install_token = settings.print install_token;
  agent_token = elim agent_token [ none ↦ [] | some token ↦ settings.print token ];
  wg_endpoint_port = server.wg_endpoint_port;
  wg_subnet_cidr = settings.wg_subnet_cidr;
  wg_server_address = settings.wg_server_address;
}

pub get_install_instructions : InstallSettings → Crypto → ℕ → Exec Db InstallInstructions
get_install_instructions settings crypto id = do
  server ← get_raw id
  install_token ←
      or_throw (bad_request "Server already registered (install token consumed)")
        server.install_token
  agent_token ← lift (token_of crypto server.agent_token_enc)
  pure (record {
    command =
        codes "curl -fsSL "
        ++ (settings.panel_url
            ++ (codes "/servers/"
                ++ (settings.print server.id
                    ++ (codes "/install-script?token="
                        ++ (settings.print install_token ++ codes " | sudo bash")))));
    script = build_install_script (script_params settings server install_token agent_token);
  })

pub get_install_script : InstallSettings → Crypto → (id token : ℕ) → Exec Db Text
get_install_script settings crypto id token = do
  server ← get_raw id
  throw_if (differs server.install_token token) (bad_request "Invalid or consumed install token")
  instructions ← get_install_instructions settings crypto id
  pure instructions.script

pub record AgentDiagnostics (Status Targets : Type 0) : Type 0 where
  pub agent_url : Text
  pub agent_reachable : Bool
  pub status : Result Status
  pub targets : Result Targets

answers : {A : Type 0} → Result A → Bool
answers (ok a) = true
answers (err e) = false

-- A field and its error are one result here: each call's error is kept, not thrown.
pub agent_diagnostics :
    {Status Targets : Type 0}
    → (get_status : Server → Result Status) → (target_check : Server → Result Targets) → ℕ
    → Exec Db (AgentDiagnostics Status Targets)
agent_diagnostics get_status target_check id = do
  server ← get_raw id
  pure (record {
    agent_url = server.agent_url;
    agent_reachable = answers (get_status server) || answers (target_check server);
    status = get_status server;
    targets = target_check server;
  })
