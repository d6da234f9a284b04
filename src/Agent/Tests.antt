-- ===== src/Agent/Tests.antt =====
-- Requests to an agent on which `wg` answers.
use fredoomeaxima.Common.{◌≡◌, ℕ, refl, true, filter, List, [], ◌∷◌, Option, none, some, any}
use fredoomeaxima.Text.{Text, codes, text_eq}
use fredoomeaxima.Exec.{Result, ok, err, internal}
use fredoomeaxima.Agent.{Node, Machine, Request, Method, bearer_of, handle}
use fredoomeaxima.Agent.Requests.{shows_token, after_requests, after_requests-filter}
use fredoomeaxima.Agent.Secrets.{handle_keeps_files}

abbrev node : Result Text → Node
node answer = record {
  agent_token = codes "t0";
  wg_interface = codes "wg0";
  panel_url = codes "http://panel";
  server_id = codes "5";
  started_at = 0;
  run = λ before command. answer;
  psk_path = codes "/tmp/psk-1";
  write_error = none;
  leftover = none;
  unlinks = true;
  parse = λ text. ok (record {
    public_key = some (codes "pub");
    preshared_key = some (codes "psk");
    allowed_ips = some (codes "10.66.66.2/32" ∷ []);
  });
  decode = λ text. ok text;
  pathname = λ target. ok target;
  resolves = λ host. true;
  answers = λ host. true;
}

abbrev idle : Machine
idle = record { executed = []; files = record { path = codes "/tmp/other"; content = [] } ∷ [] }

abbrev adding : Option Text → Request
adding authorization = record {
  method = Method.post;
  path = codes "/peers";
  authorization = authorization;
  body = ok (codes "{...}");
}

-- A stranger asks for a peer, then someone who shows the token, then a stranger again.
abbrev visits : List (ℕ × Request)
visits =
    (60, adding (some (codes "Bearer t1")))
    ∷ (70, adding (some (bearer_of (codes "t0"))))
    ∷ (80, adding none)
    ∷ []

after_requests-filter_example :
    after_requests (node (ok [])) visits idle
    ≡ after_requests (node (ok [])) ((70, adding (some (bearer_of (codes "t0")))) ∷ []) idle
unfolding filter shows_token text_eq
after_requests-filter_example = after_requests-filter (node (ok [])) visits idle

-- `wg set` fails, after the key's file was written.
handle_keeps_files_example :
    (handle
      (node (err (internal "wg failed")))
      60
      (adding (some (bearer_of (codes "t0"))))
      idle).1.files
    ≡ idle.files
unfolding any text_eq
handle_keeps_files_example =
    handle_keeps_files (node (err (internal "wg failed"))) refl refl 60
      (adding (some (bearer_of (codes "t0")))) idle refl
