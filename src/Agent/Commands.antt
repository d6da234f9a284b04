-- ===== src/Agent/Commands.antt =====
-- The machine of apps/agent/src/index.ts, and the commands that the agent runs on it.
use fredoomeaxima.Common.{
  ℕ, ◌-◌, String, Bool, true, false, not, List, [], ◌∷◌, ◌++◌, map, Option, none, some, length,
  filter, any, if◌then◌else◌,
}
use fredoomeaxima.Text.{Text, codes, text_eq, trim, split, join}
use fredoomeaxima.Exec.{Error, Result, ok, err, Exec, pure, gets, modify, lift, ◌>>=◌, ◌>>◌}

-- A program and its arguments.
pub record Command : Type 0 where
  pub file : String
  pub args : List Text

pub record TempFile : Type 0 where
  pub path : Text
  pub content : Text

pub record Machine : Type 0 where
  pub executed : List Command
  pub files : List TempFile

pub record PeerBody : Type 0 where
  pub public_key : Option Text
  pub preshared_key : Option Text
  pub allowed_ips : Option (List Text)

-- The configuration, and what answers from outside. `run` gives the output of a command after those
-- that were run before; `write_error` and `unlinks` say whether the file system
-- obeys, and `leftover` what a write that fails leaves of the new file, if it has created it.
pub record Node : Type 0 where
  pub agent_token : Text
  pub wg_interface : Text
  pub panel_url : Text
  pub server_id : Text
  pub started_at : ℕ
  pub run : List Command → Command → Result Text
  pub psk_path : Text
  pub write_error : Option Error
  pub leftover : Option Text
  pub unlinks : Bool
  pub parse : Text → Result PeerBody
  pub decode : Text → Result Text
  pub pathname : Text → Result Text
  pub resolves : String → Bool
  pub answers : String → Bool

unfoldable pub exec_file : Node → Command → Exec Machine Text
exec_file node command = do
  before ← gets (λ m. m.executed)
  modify (λ m. record m { executed = command ∷ before })
  lift (node.run before command)

abbrev pub set_peer : Node → Text → List Text → Command
set_peer node public_key allowed_ips = record {
  file = "wg";
  args =
      codes "set"
      ∷ node.wg_interface
      ∷ codes "peer"
      ∷ public_key
      ∷ codes "preshared-key"
      ∷ node.psk_path
      ∷ codes "allowed-ips"
      ∷ join b',' allowed_ips
      ∷ [];
}

abbrev pub save : Node → Command
save node = record {
  file = "sh";
  args = codes "-c" ∷ (codes "wg-quick save " ++ node.wg_interface ++ codes " || true") ∷ [];
}

unfoldable pub write_file : Option Error → Option Text → TempFile → Exec Machine (Unit {0})
write_file none leftover file m = (ok tt, record m { files = file ∷ m.files })
write_file (some e) none file m = (err e, m)
write_file (some e) (some part) file m =
    (err e, record m { files = record file { content = part } ∷ m.files })

-- The `finally` of `wgAddPeer`, whose own failure is ignored.
unfoldable pub unlink : Node → Machine → Machine
unlink node m =
    if node.unlinks
    then record m { files = filter (λ f. not (text_eq f.path node.psk_path)) m.files }
    else m

-- `try { ... } finally { ... }`
abbrev pub finally : {A : Type 0} → Exec Machine A → (Machine → Machine) → Exec Machine A
finally action cleanup m = ((action m).0, cleanup (action m).1)

unfoldable pub wg_add_peer : Node → Text → Text → List Text → Exec Machine (Unit {0})
unfolding write_file unlink exec_file
wg_add_peer node public_key preshared_key allowed_ips = do
  write_file node.write_error node.leftover
      (record { path = node.psk_path; content = preshared_key })
  finally
      (do
        exec_file node (set_peer node public_key allowed_ips)
        exec_file node (save node)
        pure tt)
      (unlink node)

unfoldable pub wg_remove_peer : Node → Text → Exec Machine (Unit {0})
unfolding exec_file
wg_remove_peer node public_key = do
  exec_file node (record {
    file = "wg";
    args = codes "set" ∷ node.wg_interface ∷ codes "peer" ∷ public_key ∷ codes "remove" ∷ [];
  })
  exec_file node (save node)
  pure tt

pub record WgStatus : Type 0 where
  pub wg_up : Bool
  pub peer_count : ℕ

unfoldable pub is_line : Text → Bool
is_line [] = false
is_line (c ∷ t) = true

-- `catch { return { wgUp: false, peerCount: 0 } }`
unfoldable pub status_from : Result Text → WgStatus
unfolding is_line
status_from (err e) = record { wg_up = false; peer_count = 0 }
status_from (ok stdout) = record {
  wg_up = true;
  peer_count = length (filter is_line (split b'\n' (trim stdout))) - 1;
}

unfoldable pub wg_status : Node → Exec Machine WgStatus
unfolding exec_file status_from
wg_status node m =
    let answer =
      exec_file node
        (record { file = "wg"; args = codes "show" ∷ node.wg_interface ∷ codes "dump" ∷ [] }) m in
    (ok (status_from answer.0), answer.1)

unfoldable pub wg_restart : Node → Exec Machine (Unit {0})
unfolding exec_file
wg_restart node = do
  exec_file node (record {
    file = "systemctl";
    args = codes "restart" ∷ (codes "wg-quick@" ++ node.wg_interface) ∷ [];
  })
  pure tt

abbrev pub target_probes : List (String × String)
target_probes =
    ("telegram", "web.telegram.org")
    ∷ ("youtube", "www.youtube.com")
    ∷ ("instagram", "www.instagram.com")
    ∷ ("tiktok", "www.tiktok.com")
    ∷ ("chatgpt", "chat.openai.com")
    ∷ ("claude", "claude.ai")
    ∷ ("gemini", "gemini.google.com")
    ∷ ("whatsapp", "web.whatsapp.com")
    ∷ []

unfoldable pub probe_target : Node → String → Bool
probe_target node host = if node.resolves host then node.answers host else false

pub record TargetCheck : Type 0 where
  pub results : List (String × Bool)
  pub dns_ok : Bool

unfoldable pub run_target_check : Node → TargetCheck
unfolding probe_target
run_target_check node =
    let results = map (λ (t : String × String). (t.0, probe_target node t.1)) target_probes in
    record { results = results; dns_ok = any (λ r. r.1) results }
