-- ===== src/Provisioning.antt =====
-- apps/api/src/provisioning/ssh-provisioner.service.ts: installing a server over SSH. The session,
-- the decryption of the agent's token and the text of the install script are arguments. The pieces
-- of output come one after another, and each is stored before the next.
pub mod Known
pub mod Running
pub mod Frame
pub mod Outcomes
mod Tests
use Prim.Native.String.{◌++◌ as text_append}
use fredoomeaxima.Common.{
  ℕ, zero, suc, ◌-◌, String, Bool, true, false, List, [], ◌∷◌, ◌++◌, Option, none, some, ◌==◌,
  length, find, if◌then◌else◌,
}
use fredoomeaxima.Text.{Text, codes, to_text}
use fredoomeaxima.Exec.{
  Error, Result, ok, err, not_found, Exec, pure, gets, modify, lift, or_throw, ◌>>=◌, ◌>>◌,
}
use fredoomeaxima.Database.{Db, Server, ServerStatus, ProvisionStatus}
use fredoomeaxima.Servers.{find_server, update_server}
use fredoomeaxima.Api.{starts_with}
use fredoomeaxima.Agent.{message_of}

pub record SshTarget : Type 0 where
  pub host : Text
  pub port : ℕ
  pub user : Text
  pub password : Text

-- What the steps of a session answer. The install command gives its pieces of output, and its exit
-- code, `null` if a signal ended it, or the error that ended the session, or it does not end: it has
-- no timeout. The steps before it answer.
pub record Session : Type 0 where
  pub connect : Result (Unit {0})
  pub bundle_path : Text
  pub has_bundle : Bool
  pub put_bundle : Result (Unit {0})
  pub decrypt : ℕ → Result Text
  pub upload_script : Server → Text → Result (Unit {0})
  pub output : List Text
  pub exit_code : Option (Result (Option ℕ))

-- `chunk.split(password).join('***')`: `skip` characters belong to an occurrence that was replaced.
-- The password is not empty.
mask_from : ℕ → Text → Text → Text
mask_from skip password [] = []
mask_from (suc skip) password (c ∷ t) = mask_from skip password t
mask_from zero password (c ∷ t) =
    let replaced = mask_from (length password - 1) password t in
    let kept = mask_from zero password t in
    if starts_with password (c ∷ t) then codes "***" ++ replaced else c ∷ kept

mask : Text → Text → Text
mask password chunk = mask_from zero password chunk

pub set_provision : ℕ → ProvisionStatus → Exec Db (Unit {0})
set_provision server_id status =
    modify (update_server server_id (λ s. record s { provision_status = status }))

-- The log is what the server's row holds, as each piece is stored at once.
pub append : ℕ → SshTarget → Text → Exec Db (Unit {0})
append server_id target chunk = modify (
    update_server server_id
      (λ s. record s { provision_log = s.provision_log ++ mask target.password chunk }))

pub append_all : ℕ → SshTarget → List Text → Exec Db (Unit {0})
append_all server_id target [] = pure tt
append_all server_id target (c ∷ cs) = do append server_id target c; append_all server_id target cs

fail : ℕ → Exec Db (Unit {0})
fail server_id = set_provision server_id ProvisionStatus.failed

pub upload_bundle : Session → ℕ → SshTarget → Exec Db (Unit {0})
upload_bundle session server_id target =
    if session.has_bundle
    then (lift session.put_bundle >> append server_id target (codes "Uploaded agent bundle.\n"))
    else append server_id target (
        codes "WARN: agent bundle not found at "
        ++ (session.bundle_path ++ codes "; install script will fetch it.\n"))

token_of : Session → Option ℕ → Result Text
token_of session none = ok (codes "")
token_of session (some enc) = session.decrypt enc

code_text : Option ℕ → Text
code_text none = codes "null"
code_text (some code) = to_text code

abbrev is_zero : Option ℕ → Bool
is_zero none = false
is_zero (some code) = code == 0

-- What follows the install command.
finish : ℕ → SshTarget → Option ℕ → Exec Db (Unit {0})
finish server_id target code =
    if is_zero code
    then (append server_id target (codes "\nInstall script finished successfully.\n")
        >> set_provision server_id ProvisionStatus.success)
    else (append server_id target
          (codes "\nInstall script exited with code " ++ (code_text code ++ codes ".\n"))
        >> fail server_id)

-- Waiting for the install command. Where it does not end nothing follows, and the state is the one
-- that everybody sees from then on.
conclude : ℕ → SshTarget → Option (Result (Option ℕ)) → Exec Db (Unit {0})
conclude server_id target none = pure tt
conclude server_id target (some exit_code) = do code ← lift exit_code; finish server_id target code

-- The body of the `try`.
pub install : Session → Server → SshTarget → Exec Db (Unit {0})
install session server target = do
  append server.id target (
      codes "Connecting to "
      ++ (target.user
          ++ (codes "@" ++ (target.host ++ (codes ":" ++ (to_text target.port ++ codes "...\n"))))))
  lift session.connect
  append server.id target (codes "Connected.\n")
  upload_bundle session server.id target
  token ← lift (token_of session server.agent_token_enc)
  lift (session.upload_script server token)
  append server.id target
      (codes "Uploaded install script. Running (this can take a few minutes)...\n")
  append_all server.id target session.output
  conclude server.id target session.exit_code

-- `catch (err)`
recover : ℕ → SshTarget → Result (Unit {0}) × Db → Result (Unit {0}) × Db
recover server_id target (ok done, db) = (ok tt, db)
recover server_id target (err e, db) =
    (append server_id target (codes "\nERROR: " ++ (codes (message_of e) ++ codes "\n"))
        >> fail server_id)
      db

pub begin : ℕ → Exec Db (Unit {0})
begin server_id = modify (
    update_server server_id
      (λ s. record s { provision_status = ProvisionStatus.running; provision_log = [] }))

run_known : Session → SshTarget → Server → Option ℕ → Exec Db (Unit {0})
run_known session target server none db = fail server.id db
run_known session target server (some install_token) db =
    recover server.id target (install session server target (begin server.id db).1)

pub run : Session → ℕ → SshTarget → Exec Db (Unit {0})
run session server_id target = do
  found ← gets (find_server server_id)
  server ← or_throw (not_found "Server not found") found
  run_known session target server server.install_token

pub record ProvisionState : Type 0 where
  pub provision_status : ProvisionStatus
  pub provision_log : Text
  pub status : ServerStatus

pub get_state : ℕ → Exec Db ProvisionState
get_state server_id = do
  found ← gets (find_server server_id)
  server ← or_throw (not_found "Server not found") found
  pure (record {
    provision_status = server.provision_status;
    provision_log = server.provision_log;
    status = server.status;
  })
