-- ===== src/Agent.antt =====
-- apps/agent/src/index.ts: the agent on a WireGuard server. What it does to its machine is the list
-- of commands it has run, newest first, and the temporary files it has left. What the commands and
-- the file system answer, JSON, URI decoding, the DNS and HTTPS are arguments.
mod Commands
pub mod Requests
pub mod Secrets
pub mod Installing
mod Tests
unfoldable pub use Commands.*
use fredoomeaxima.Common.{
  ℕ, ◌-◌, ◌/◌, String, Bool, true, false, not, ◌&&◌, ◌||◌, List, [], ◌∷◌, ◌++◌, map, Option, none,
  some, length, filter, any, if◌then◌else◌,
}
use fredoomeaxima.Text.{Text, codes, text_eq, trim, split, join}
use fredoomeaxima.Exec.{
  Error, Result, ok, err, internal, bad_request, unauthorized, forbidden, not_found, conflict,
  unavailable, Exec, pure, gets, modify, lift, ◌>>=◌, ◌>>◌,
}

pub data Method : Type 0 where
  get post delete other : Method

-- `path` is the request's target; `handle` goes on with its pathname.
pub record Request : Type 0 where
  pub method : Method
  pub path : Text
  pub authorization : Option Text
  pub body : Result Text

pub data Body : Type 0 where
  healthy done : Body
  error : String → Body
  status : WgStatus → (uptime_seconds : ℕ) → Body
  check : TargetCheck → Body

-- `send(res, status, body)`
pub record Response : Type 0 where
  pub code : ℕ
  pub body : Body

abbrev pub send : ℕ → Body → Response
send code body = record { code = code; body = body }

abbrev pub bearer_of : Text → Text
bearer_of token = codes "Bearer " ++ token

authorized : Node → Option Text → Bool
authorized node none = false
authorized node (some auth) = text_eq auth (bearer_of node.agent_token)

unfoldable pub message_of : Error → String
message_of (Error.bad_request m) = m
message_of (Error.unauthorized m) = m
message_of (Error.forbidden m) = m
message_of (Error.not_found m) = m
message_of (Error.conflict m) = m
message_of (Error.unavailable m) = m
message_of (Error.internal m) = m

abbrev truthy : Option Text → Option Text
truthy none = none
truthy (some []) = none
truthy (some (c ∷ t)) = some (c ∷ t)

required : Response
required = send 400 (Body.error "publicKey, presharedKey, allowedIps required")

-- The case of `POST /peers` after the body was parsed.
add_peer_case : Node → Option Text → Option Text → Option (List Text) → Exec Machine Response
unfolding wg_add_peer required
add_peer_case node (some public_key) (some preshared_key) (some allowed_ips) = do
  wg_add_peer node public_key preshared_key allowed_ips
  pure (send 201 Body.done)
add_peer_case node none psk ips = pure required
add_peer_case node (some pk) none ips = pure required
add_peer_case node (some pk) (some psk) none = pure required

-- `(await readBody(req)) || '{}'`
abbrev pub or_empty : Text → Text
or_empty [] = codes "{}"
or_empty (c ∷ t) = c ∷ t

abbrev is_get : Method → Bool
is_get Method.get = true
is_get _ = false

abbrev is_post : Method → Bool
is_post Method.post = true
is_post _ = false

abbrev is_delete : Method → Bool
is_delete Method.delete = true
is_delete _ = false

-- What `path.slice('/peers/'.length)` gives, if the path starts so.
strip : Text → Text → Option Text
strip [] t = some t
strip (c ∷ p) [] = none
strip (c ∷ p) (d ∷ t) = let rest = strip p t in if text_eq (c ∷ []) (d ∷ []) then rest else none

-- The key of `DELETE /peers/…`, else nothing.
removal : Request → Option Text
unfolding strip
removal req = if is_delete req.method then strip (codes "/peers/") req.path else none

-- The cases after `DELETE /peers/…`.
last_cases : Node → ℕ → Request → Exec Machine Response
unfolding wg_restart wg_status run_target_check
last_cases node now req =
    if is_post req.method && text_eq req.path (codes "/restart")
    then (wg_restart node >> pure (send 200 Body.done))
    else if is_get req.method && text_eq req.path (codes "/status")
    then (wg_status node >>= λ status.
        pure (send 200 (Body.status status ((now - node.started_at) / 1000))))
    else if is_get req.method && text_eq req.path (codes "/target-check")
    then pure (send 200 (Body.check (run_target_check node)))
    else pure (send 404 (Body.error "not found"))

remove_case : Node → ℕ → Request → Option Text → Exec Machine Response
unfolding wg_remove_peer last_cases
remove_case node now req none = last_cases node now req
remove_case node now req (some encoded) = do
  public_key ← lift (node.decode encoded)
  wg_remove_peer node public_key
  pure (send 200 Body.done)

-- The body of the `try`, for requests that carry the token.
dispatch : Node → ℕ → Request → Exec Machine Response
unfolding add_peer_case remove_case removal
dispatch node now req =
    if is_post req.method && text_eq req.path (codes "/peers")
    then (do
      text ← lift req.body
      body ← lift (node.parse (or_empty text))
      add_peer_case node (truthy body.public_key) (truthy body.preshared_key) body.allowed_ips)
    else remove_case node now req (removal req)

-- `catch (err)`
caught : Result Response × Machine → Response × Machine
unfolding message_of
caught (ok response, m) = (response, m)
caught (err e, m) = (send 500 (Body.error (message_of e)), m)

-- What follows the parsing of the request's URL.
respond : Node → ℕ → Request → Machine → Response × Machine
unfolding authorized caught dispatch
respond node now req m =
    if is_get req.method && text_eq req.path (codes "/healthz")
    then (send 200 Body.healthy, m)
    else if not (authorized node req.authorization)
    then (send 401 (Body.error "unauthorized"), m)
    else caught (dispatch node now req m)

answer : Node → ℕ → Request → Result Text → Machine → Response × Machine
unfolding respond message_of
answer node now req (ok path) m = respond node now (record req { path = path }) m
answer node now req (err e) m = (send 500 (Body.error (message_of e)), m)

-- A target that is no URL is answered with 500, before anything else is looked at.
pub handle : Node → ℕ → Request → Machine → Response × Machine
unfolding answer
handle node now req m = answer node now req (node.pathname req.path) m

pub record Heartbeat : Type 0 where
  pub url : Text
  pub authorization : Text
  pub peer_count : ℕ
  pub wg_up : Bool

-- `sendHeartbeat`: the request it makes, if it makes one.
pub send_heartbeat : Node → Exec Machine (Option Heartbeat)
unfolding is_line wg_status
send_heartbeat node =
    if not (is_line node.panel_url) || not (is_line node.server_id)
    then pure none
    else (wg_status node >>= λ status. pure (
        some (record {
          url = node.panel_url ++ (codes "/servers/" ++ (node.server_id ++ codes "/heartbeat"));
          authorization = bearer_of node.agent_token;
          peer_count = status.peer_count;
          wg_up = status.wg_up;
        })))
