-- ===== src/AgentGateway/Tests.antt =====
-- The panel and an agent that shares its token, and one that does not.
use fredoomeaxima.Common.{◌≡◌, refl, true, [], ◌∷◌, none, some}
use fredoomeaxima.Text.{Text, codes}
use fredoomeaxima.Exec.{ok}
use fredoomeaxima.Agent.{Node, Machine, set_peer, save, handle}
use fredoomeaxima.AgentGateway.{Link, AgentServerRef, add_peer}
use fredoomeaxima.AgentGateway.Delivery.{accepted, body_of, peer_of, add_peer_delivers}

abbrev node : Node
node = record {
  agent_token = codes "t0";
  wg_interface = codes "wg0";
  panel_url = codes "http://panel";
  server_id = codes "5";
  started_at = 0;
  run = λ before command. ok [];
  psk_path = codes "/tmp/psk-1";
  write_error = none;
  leftover = none;
  unlinks = true;
  parse = λ text. ok (body_of (peer_of 112 [] 107 [] (codes "10.66.66.2/32" ∷ [])));
  decode = λ text. ok text;
  pathname = λ target. ok target;
  resolves = λ host. true;
  answers = λ host. true;
}

abbrev link : Text → Link Machine
link token = record {
  decrypt = λ enc. ok token;
  axios = λ url req m. accepted (handle node 60 req m);
  stringify = λ params. codes "{...}";
  encode = λ t. t;
}

abbrev ref : AgentServerRef
ref = record { agent_url = codes "http://9.9.9.9:8443"; agent_token_enc = some 501 }

abbrev idle : Machine
idle = record { executed = []; files = [] }

add_peer_delivers_example :
    ((add_peer (link (codes "t0")) ref (peer_of 112 [] 107 [] (codes "10.66.66.2/32" ∷ [])) idle).0
      ≡ ok tt)
    × ((add_peer
          (link (codes "t0"))
          ref
          (peer_of 112 [] 107 [] (codes "10.66.66.2/32" ∷ []))
          idle).1.executed
        ≡ save node ∷ set_peer node (codes "p") (codes "10.66.66.2/32" ∷ []) ∷ [])
add_peer_delivers_example =
    add_peer_delivers node 60 (link (codes "t0")) ref 501 (λ url req m. refl) refl 112 107 [] [] []
      [] (codes "10.66.66.2/32" ∷ []) idle refl refl refl refl refl refl
