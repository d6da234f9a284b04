-- ===== src/AgentGateway/Delivery.antt =====
-- The panel's client talking to an agent.
use fredoomeaxima.Common.{
  ℕ, ◌≡◌, ◌≢◌, refl, ◌∙◌, ap, String, ◌&&◌, List, [], ◌∷◌, Option, none, some, leb, ltb,
  if◌then◌else◌,
}
use fredoomeaxima.Text.{Text, codes}
use fredoomeaxima.Exec.{Result, ok, err, internal, unavailable, pure, lift, ◌>>◌}
use fredoomeaxima.Agent.{
  Node, Machine, PeerBody, Request, Response, Body, Method, send, bearer_of, set_peer, save,
  or_empty, handle,
}
use fredoomeaxima.Agent.Requests.{handle_unauthorized}
use fredoomeaxima.Agent.Installing.{adding, handle_installs}
use fredoomeaxima.AgentGateway.{
  Link, AgentServerRef, AddPeerParams, token_from, failure, call, caught, add_peer,
}

-- What axios makes of a response.
abbrev pub accepted : Response × Machine → Result Response × Machine
accepted (r, m) =
    if leb 200 r.code && ltb r.code 300
    then (ok r, m)
    else (err (internal "Request failed with a status code"), m)

abbrev pub body_of : AddPeerParams → PeerBody
body_of params = record {
  public_key = some params.public_key;
  preshared_key = some params.preshared_key;
  allowed_ips = some params.allowed_ips;
}

tail7 : Text → Text
tail7 (a ∷ b ∷ c ∷ d ∷ e ∷ f ∷ g ∷ t) = t
tail7 _ = []

opened : Option Text → Text
opened none = []
opened (some t) = tail7 t

bearer_of_same : (s t : Text) → some (bearer_of s) ≡ some (bearer_of t) → s ≡ t
unfolding tail7 opened
bearer_of_same s t h = ap opened h

-- A peer whose keys are not empty.
abbrev pub peer_of : ℕ → Text → ℕ → Text → List Text → AddPeerParams
peer_of c key d psk ips = record {
  public_key = c ∷ key;
  preshared_key = d ∷ psk;
  allowed_ips = ips;
}

reported :
    (r : Response) (m : Machine)
    → r ≡ send 201 Body.done
    → caught "addPeer" ((lift (accepted (r, m)).0 >> pure tt) (accepted (r, m)).1) ≡ (ok tt, m)
unfolding caught
reported r m h = rw h refl

module _ (node : Node) (now : ℕ) (link : Link Machine) (server : AgentServerRef) (enc : ℕ)
    (connected : (url : Text) (req : Request) (m : Machine)
      → link.axios url req m ≡ accepted (handle node now req m))
    (stored : server.agent_token_enc ≡ some enc) where
  -- The panel adds a peer through the agent at the other end, which reads what was written for it.
  -- If the stored token decrypts to the agent's own, the platform reads the path `/peers` as itself,
  -- the key's file can be written and both commands succeed, the call succeeds, and the agent has run `wg set` for this peer and then
  -- saved the interface, and nothing else.
  pub add_peer_delivers :
      (c d : ℕ) (key psk out saved : Text) (ips : List Text) (m : Machine)
      → link.decrypt enc ≡ ok node.agent_token
      → node.pathname (codes "/peers") ≡ ok (codes "/peers")
      → node.parse (or_empty (link.stringify (peer_of c key d psk ips)))
        ≡ ok (body_of (peer_of c key d psk ips))
      → node.write_error ≡ none
      → node.run m.executed (set_peer node (c ∷ key) ips) ≡ ok out
      → node.run (set_peer node (c ∷ key) ips ∷ m.executed) (save node) ≡ ok saved
      → ((add_peer link server (peer_of c key d psk ips) m).0 ≡ ok tt)
        × ((add_peer link server (peer_of c key d psk ips) m).1.executed
            ≡ save node ∷ set_peer node (c ∷ key) ips ∷ m.executed)
  unfolding add_peer call token_from
  add_peer_delivers c d key psk out saved ips m decrypted here_is parsed written set_ok save_ok =
      let text = link.stringify (peer_of c key d psk ips) in
      let run =
        handle_installs node now text c d key psk out saved ips m here_is parsed written set_ok
          save_ok in
      let sent = connected server.agent_url (adding node text) m in
      let reply = reported _ (handle node now (adding node text) m).1 run.0 in
      rw (stored, decrypted, sent) (ap (λ p. p.0) reply, ap (λ p. p.1.executed) reply ∙ run.1)

  -- An agent with another token than the one that the panel has stored runs nothing for it, and
  -- the panel reports the service as unavailable.
  pub add_peer_foreign :
      (params : AddPeerParams) (token : Text) (m : Machine)
      → link.decrypt enc ≡ ok token
      → token ≢ node.agent_token
      → node.pathname (codes "/peers") ≡ ok (codes "/peers")
      → (message : String) × (add_peer link server params m ≡ (err (unavailable message), m))
  unfolding add_peer call token_from caught
  add_peer_foreign params token m decrypted foreign here_is =
      let req : Request = record {
        method = Method.post;
        path = codes "/peers";
        authorization = some (bearer_of token);
        body = ok (link.stringify params);
      } in
      let refused =
        handle_unauthorized node now req (codes "/peers") m here_is
          (λ same. foreign (bearer_of_same token node.agent_token same)) in
      let sent = connected server.agent_url req m in
      (
        failure "addPeer" "Request failed with a status code",
        rw (stored, decrypted, sent, refused) refl,
      )
