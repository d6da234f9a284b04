-- ===== src/Agent/Installing.antt =====
-- Adding a peer on the agent's machine.
use fredoomeaxima.Common.{ℕ, ◌≡◌, refl, ◌∙◌, ap, List, ◌∷◌, none, some, Bool-cases, inl, inr}
use fredoomeaxima.Text.{Text, codes, text_eq}
use fredoomeaxima.Text.Laws.{text_eq_refl}
use fredoomeaxima.Exec.{Result, ok, pure, continue}
use fredoomeaxima.Agent.{
  Node, Machine, Command, Request, Body, Method, send, bearer_of, set_peer, save, exec_file,
  write_file, unlink, wg_add_peer, add_peer_case, or_empty, authorized, dispatch, caught, respond,
  answer, handle,
}

unlink_executed : (node : Node) (m : Machine) → (unlink node m).executed ≡ m.executed
unfolding unlink
unlink_executed node m = elim (Bool-cases node.unlinks) [
  | inl obeys ↦ rw obeys refl
  | inr other ↦ rw other refl
]

exec_file_ok :
    (node : Node) (c : Command) (out : Text) (m : Machine)
    → node.run m.executed c ≡ ok out
    → exec_file node c m ≡ (ok out, record m { executed = c ∷ m.executed })
unfolding exec_file
exec_file_ok node c out m h = rw h refl

wg_add_peer_ok :
    (node : Node) (pk psk out saved : Text) (ips : List Text) (m : Machine)
    → node.write_error ≡ none
    → node.run m.executed (set_peer node pk ips) ≡ ok out
    → node.run (set_peer node pk ips ∷ m.executed) (save node) ≡ ok saved
    → ((wg_add_peer node pk psk ips m).0 ≡ ok tt)
      × ((wg_add_peer node pk psk ips m).1.executed ≡ save node ∷ set_peer node pk ips ∷ m.executed)
unfolding wg_add_peer write_file exec_file
wg_add_peer_ok node pk psk out saved ips m written set_ok save_ok =
    rw written (rw set_ok (rw save_ok (refl, unlink_executed node _)))

answered :
    (r : Result (Unit {0})) (m : Machine)
    → r ≡ ok tt
    → caught (continue r (λ _. pure (send 201 Body.done)) m) ≡ (send 201 Body.done, m)
unfolding caught
answered r m h = rw h refl

-- The request that adds a peer with these keys, carrying the agent's token.
abbrev pub adding : Node → Text → Request
adding node text = record {
  method = Method.post;
  path = codes "/peers";
  authorization = some (bearer_of node.agent_token);
  body = ok text;
}

pub handle_installs :
    (node : Node) (now : ℕ) (text : Text) (c d : ℕ) (key psk out saved : Text) (ips : List Text)
    (m : Machine)
    → node.pathname (codes "/peers") ≡ ok (codes "/peers")
    → node.parse (or_empty text)
      ≡ ok (record {
        public_key = some (c ∷ key);
        preshared_key = some (d ∷ psk);
        allowed_ips = some ips;
      })
    → node.write_error ≡ none
    → node.run m.executed (set_peer node (c ∷ key) ips) ≡ ok out
    → node.run (set_peer node (c ∷ key) ips ∷ m.executed) (save node) ≡ ok saved
    → ((handle node now (adding node text) m).0 ≡ send 201 Body.done)
      × ((handle node now (adding node text) m).1.executed
          ≡ save node ∷ set_peer node (c ∷ key) ips ∷ m.executed)
unfolding handle answer respond authorized dispatch add_peer_case text_eq
handle_installs node now text c d key psk out saved ips m here_is parsed written set_ok save_ok =
    let added = wg_add_peer_ok node (c ∷ key) (d ∷ psk) out saved ips m written set_ok save_ok in
    let reply = answered (wg_add_peer node (c ∷ key) (d ∷ psk) ips m).0 _ added.0 in
    rw (here_is, text_eq_refl node.agent_token)
      (rw parsed (ap (λ p. p.0) reply, ap (λ p. p.1.executed) reply ∙ added.1))
