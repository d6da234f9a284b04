-- ===== src/AgentGateway.antt =====
-- apps/api/src/agent-gateway/agent-gateway.service.ts: the panel's client of the agents. The cipher
-- and axios, which also throws on a status outside 200 to 299, are arguments; `S` is what the
-- requests change.
pub mod Delivery
mod Tests
use Prim.Native.String.{◌++◌ as text_append}
use fredoomeaxima.Common.{ℕ, String, List, [], Option, none, some, ◌++◌}
use fredoomeaxima.Text.{Text, codes}
use fredoomeaxima.Exec.{Result, ok, err, unavailable, Exec, pure, lift, ◌>>=◌, ◌>>◌}
use fredoomeaxima.Agent.{Method, Request, Response, Body, bearer_of, message_of}

pub record AgentServerRef : Type 0 where
  pub agent_url : Text
  pub agent_token_enc : Option ℕ

pub record AddPeerParams : Type 0 where
  pub public_key : Text
  pub preshared_key : Text
  pub allowed_ips : List Text

pub record Link (S : Type 0) : Type 0 where
  pub decrypt : ℕ → Result Text
  pub axios : (base_url : Text) → Request → Exec S Response
  pub stringify : AddPeerParams → Text
  pub encode : Text → Text

token_from : (ℕ → Result Text) → Option ℕ → Result Text
token_from decrypt none = err (unavailable "Server agent token not set (not registered)")
token_from decrypt (some enc) = decrypt enc

failure : String → String → String
failure op message = text_append "Agent " (text_append op (text_append " failed: " message))

module _ {S : Type 0} where
  -- A request of `client(server)`.
  call : Link S → AgentServerRef → Method → Text → Text → Exec S Response
  unfolding token_from
  call link server method path body = do
    token ← lift (token_from link.decrypt server.agent_token_enc)
    link.axios server.agent_url (record {
      method = method;
      path = path;
      authorization = some (bearer_of token);
      body = ok body;
    })

module _ {S A : Type 0} where
  caught : String → Result A × S → Result A × S
  unfolding failure message_of
  caught op (ok a, s) = (ok a, s)
  caught op (err e, s) = (err (unavailable (failure op (message_of e))), s)

  -- `try { ... } catch (err) { this.fail(op, err) }`
  abbrev attempt : String → Exec S A → Exec S A
  attempt op action s = caught op (action s)

module _ {S : Type 0} where
  pub add_peer : Link S → AgentServerRef → AddPeerParams → Exec S (Unit {0})
  unfolding call caught
  add_peer link server params =
      attempt "addPeer"
        (do call link server Method.post (codes "/peers") (link.stringify params); pure tt)

  pub remove_peer : Link S → AgentServerRef → Text → Exec S (Unit {0})
  unfolding call caught
  remove_peer link server public_key =
      attempt "removePeer"
        (do call link server Method.delete (codes "/peers/" ++ link.encode public_key) []; pure tt)

  pub restart : Link S → AgentServerRef → Exec S (Unit {0})
  unfolding call caught
  restart link server =
      attempt "restart" (do call link server Method.post (codes "/restart") []; pure tt)

  pub get_status : Link S → AgentServerRef → Exec S Body
  unfolding call caught
  get_status link server =
      attempt "getStatus" (do res ← call link server Method.get (codes "/status") []; pure res.body)

  pub target_check : Link S → AgentServerRef → Exec S Body
  unfolding call caught
  target_check link server =
      attempt "targetCheck"
        (do res ← call link server Method.get (codes "/target-check") []; pure res.body)
