-- ===== src/Provisioning/Tests.antt =====
-- Runs that fail at the connection, and the masking of the log.
use fredoomeaxima.Common.{◌≡◌, refl, true, [], ◌++◌, some}
use fredoomeaxima.Text.{codes}
use fredoomeaxima.Exec.{ok, err, internal}
use fredoomeaxima.Database.{Db, Server, PaymentStatus, ServerStatus}
use fredoomeaxima.Database.Samples.{sample, helsinki}
use fredoomeaxima.Api.{starts_with}
use fredoomeaxima.Provisioning.{SshTarget, Session, mask, mask_from}

abbrev vps : Server
vps = record (helsinki ServerStatus.pending) { install_token = some 77 }

abbrev db : Db
db = sample PaymentStatus.pending vps

abbrev target : SshTarget
target = record { host = codes "9.9.9.9"; port = 22; user = codes "root"; password = codes "sec" }

abbrev session : Session
session = record {
  connect = err (internal "timed out");
  bundle_path = codes "/app/agent.js";
  has_bundle = true;
  put_bundle = ok tt;
  decrypt = λ enc. ok (codes "t0");
  upload_script = λ server token. ok tt;
  output = [];
  exit_code = some (ok (some 0));
}

mask_test : mask (codes "sec") (codes "a sec sec.") ≡ codes "a *** ***."
unfolding mask mask_from starts_with
mask_test = refl

-- Two pieces of output that the password is spread over are stored as they are.
spread_test :
    mask (codes "sec") (codes "pw: se") ++ mask (codes "sec") (codes "c") ≡ codes "pw: sec"
unfolding mask mask_from starts_with
spread_test = refl
