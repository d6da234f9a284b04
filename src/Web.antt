-- ===== src/Web.antt =====
-- The browser's client: apps/web/lib/api.ts. The network is an argument, with a state of its own;
-- so is the reading of JSON. A request's method, headers and body are its call.
pub mod Retry
pub mod Recovery
pub mod Account
mod Tests
use fredoomeaxima.Common.{
  ℕ, String, Bool, true, false, not, ◌&&◌, ◌++◌, List, [], ◌∷◌, Option, none, some, ltb, leb, ◌==◌,
  if◌then◌else◌,
}
use fredoomeaxima.Text.{Text, codes, to_text}

pub record Tokens : Type 0 where
  pub access_token : Text
  pub refresh_token : Text
  pub expires_in : ℕ

-- The two keys of the local storage.
pub record TokenStore : Type 0 where
  pub access : Option Text
  pub refresh : Option Text

abbrev pub set : Tokens → TokenStore
set tokens = record { access = some tokens.access_token; refresh = some tokens.refresh_token }

abbrev pub clear : TokenStore
clear = record { access = none; refresh = none }

pub record Request (Call : Type 0) : Type 0 where
  pub call : Call
  pub authorization : Option Text

pub record Response (Body : Type 0) : Type 0 where
  pub status : ℕ
  pub body : Body

-- `res.ok`
abbrev pub is_ok : {Body : Type 0} → Response Body → Bool
is_ok res = leb 200 res.status && ltb res.status 300

-- The `message` of an error's body: a text, several, or none.
pub data Message : Type 0 where
  missing : Message
  text : Text → Message
  texts : List Text → Message

-- `fetch` may reject, which is `none`. `message` reads an error's body, and gives `none` if it is not
-- JSON; `tokens` reads a pair of tokens.
pub record Network (Call Body World : Type 0) : Type 0 where
  pub fetch : Request Call → World → Option (Response Body) × World
  pub refresh_call : Text → Call
  pub tokens : Body → Option Tokens
  pub message : Body → Option Message

-- What `api` throws: its own error, or one of the platform.
pub data Failure : Type 0 where
  api_error : (status : ℕ) → (message : Text) → Failure
  platform_error : Failure

pub data Outcome (A : Type 0) : Type 0 where
  done : A → Outcome A
  thrown : Failure → Outcome A

pub record Browser (World : Type 0) : Type 0 where
  pub store : TokenStore
  pub world : World

abbrev pub Action : Type 0 → Type 0 → Type 0
Action World A = Browser World → Outcome A × Browser World

abbrev pub return : {World A : Type 0} → A → Action World A
return a b = (done a, b)

abbrev pub throw : {World A : Type 0} → Failure → Action World A
throw f b = (thrown f, b)

abbrev pub outcome : {World A : Type 0} → Outcome A → Action World A
outcome o b = (o, b)

abbrev pub save : {World : Type 0} → TokenStore → Action World (Unit {0})
save store b = (done tt, record b { store = store })

module _ {World A B : Type 0} where
  abbrev pub resume : Outcome A → (A → Action World B) → Action World B
  resume (done a) f b = f a b
  resume (thrown e) f b = (thrown e, b)

  infixl 10 ◌>>=◌ ◌>>◌
  abbrev pub ◌>>=◌ : Action World A → (A → Action World B) → Action World B
  ◌>>=◌ first rest b = resume (first b).0 rest (first b).1

  abbrev pub ◌>>◌ : Action World A → Action World B → Action World B
  ◌>>◌ first rest b = resume (first b).0 (λ _. rest) (first b).1

-- A missing token and an empty one are alike to a test.
abbrev pub present : Option Text → Option Text
present none = none
present (some []) = none
present (some (c ∷ token)) = some (c ∷ token)

abbrev pub bearer : Option Text → Option Text
bearer none = none
bearer (some token) = some (codes "Bearer " ++ token)

abbrev pub answered : {Body : Type 0} → Option (Response Body) → Outcome (Response Body)
answered none = thrown platform_error
answered (some res) = done res

-- `message.join(', ')`
commas : List Text → Text
commas [] = []
commas (t ∷ []) = t
commas (t ∷ u ∷ ts) = t ++ (codes ", " ++ commas (u ∷ ts))

pub message_text : (status : ℕ) → Message → Text
unfolding commas
message_text status missing = codes "Request failed (" ++ (to_text status ++ codes ")")
message_text status (text t) = t
message_text status (texts ts) = commas ts

-- `tokenStore.set((await res.json()) as Tokens)`
abbrev pub keep_tokens : {World : Type 0} → Option Tokens → Action World (Unit {0})
keep_tokens none = throw platform_error
keep_tokens (some tokens) = save (set tokens)

-- The value of a call that succeeded: the response itself for `raw`, nothing for 204, or JSON.
pub data Value (Body : Type 0) : Type 0 where
  raw : Response Body → Value Body
  empty : Value Body
  json : Body → Value Body

module _ {Call Body World : Type 0} (net : Network Call Body World) where
  pub raw_fetch : Call → (with_auth : Bool) → Action World (Response Body)
  raw_fetch call with_auth b =
      let authorization = if with_auth then bearer (present b.store.access) else none in
      let (res, world) =
        net.fetch (record { call = call; authorization = authorization }) b.world in
      (answered res, record b { world = world })

  -- The end of `tryRefresh`, once the panel has answered.
  store_tokens : Response Body → Action World Bool
  store_tokens res =
      if is_ok res
      then (keep_tokens (net.tokens res.body) >> return true)
      else (save clear >> return false)

  refresh_with : Option Text → Action World Bool
  unfolding store_tokens
  refresh_with none = return false
  refresh_with (some refresh_token) = do
    res ← raw_fetch (net.refresh_call refresh_token) false
    store_tokens res

  pub try_refresh : Action World Bool
  unfolding refresh_with
  try_refresh b = refresh_with (present b.store.refresh) b

  -- `if (await tryRefresh()) res = await rawFetch(...)`
  again_if : Call → Response Body → Bool → Action World (Response Body)
  again_if call res true = raw_fetch call true
  again_if call res false = return res

  retry : Call → Response Body → Bool → Action World (Response Body)
  unfolding again_if
  retry call res true = do refreshed ← try_refresh; again_if call res refreshed
  retry call res false = return res

  -- The error of a response that is not `ok`. Where its body is not JSON, `res.json()` has used it
  -- up, and `res.text()` rejects.
  failure_of : ℕ → Option Message → Failure
  failure_of status none = platform_error
  failure_of status (some m) = api_error status (message_text status m)

  json_or_throw : Body → Option Message → Outcome (Value Body)
  json_or_throw body none = thrown platform_error
  json_or_throw body (some m) = done (json body)

  pub value_of : (raw_response : Bool) → Response Body → Outcome (Value Body)
  unfolding failure_of json_or_throw
  value_of raw_response res =
      if not (is_ok res)
      then thrown (failure_of res.status (net.message res.body))
      else if raw_response
      then done (raw res)
      else if res.status == 204
      then done empty
      else json_or_throw res.body (net.message res.body)

  pub api : Call → (with_auth raw_response : Bool) → Action World (Value Body)
  unfolding retry
  api call with_auth raw_response = do
    first ← raw_fetch call with_auth
    res ← retry call first (first.status == 401 && with_auth)
    outcome (value_of raw_response res)
