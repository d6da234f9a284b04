-- ===== src/Web/Recovery.antt =====
-- The client against the panel: the network is the router.
use fredoomeaxima.Common.{ℕ, ◌≡◌, refl, ap, true, false, ◌++◌, Option, none, some}
use fredoomeaxima.Text.{Text, codes}
use fredoomeaxima.Exec.{
  Result, ok, err, bad_request, unauthorized, forbidden, not_found, conflict, unavailable, internal,
}
use fredoomeaxima.Database.{Db}
use fredoomeaxima.Auth.{AuthTokens, refresh}
use fredoomeaxima.Api.{Env, Reply}
use fredoomeaxima.Api.Auth.{AuthCall}
use fredoomeaxima.Api.Guards.{bearer_of}
use fredoomeaxima.Api.Router.{Call, endpoint_of, serve}
use fredoomeaxima.Api.Router.Restricted.{serve_unknown}
use fredoomeaxima.Api.Router.Refreshing.{serve_refresh}
use fredoomeaxima.Web.{
  Tokens, set, Response, Network, Browser, present, bearer, Message, value_of, api,
}
use fredoomeaxima.Web.Retry.{api_renews}

-- The status codes of the exceptions. Other successes than 200 do not matter to the client.
abbrev pub status_of : Result Reply → ℕ
status_of (ok r) = 200
status_of (err (bad_request m)) = 400
status_of (err (unauthorized m)) = 401
status_of (err (forbidden m)) = 403
status_of (err (not_found m)) = 404
status_of (err (conflict m)) = 409
status_of (err (unavailable m)) = 503
status_of (err (internal m)) = 500

abbrev pub response_of : Result Reply → Response (Result Reply)
response_of r = record { status = status_of r; body = r }

-- How tokens are printed, and read again.
pub record Spelling : Type 0 where
  pub print : ℕ → Text
  pub number : Text → ℕ

abbrev pub tokens_of : Spelling → AuthTokens → Tokens
tokens_of spelling t = record {
  access_token = spelling.print t.access_token;
  refresh_token = spelling.print t.refresh_token;
  expires_in = t.expires_in;
}

abbrev tokens_in : Spelling → Result Reply → Option Tokens
tokens_in spelling (ok (Reply.tokens t)) = some (tokens_of spelling t)
tokens_in spelling (ok r) = none
tokens_in spelling (err e) = none

-- The panel as the client's network; replies are JSON.
abbrev pub panel : {Body : Type 0} → Spelling → Env Body → Network (Call Body) (Result Reply) Db
panel spelling env = record {
  fetch = λ request db.
      let (r, after) = serve env request.authorization request.call db in
      (some (response_of r), after);
  refresh_call = λ t. Call.auth (AuthCall.refresh (spelling.number t));
  tokens = tokens_in spelling;
  message = λ r. some Message.missing;
}

-- Where the stored access token no longer verifies, and the panel accepts the stored refresh token,
-- a call that wants a user is served as if it had come with the new access token, after the refresh;
-- the client holds the new tokens. The new access token is not empty.
pub client_recovers :
    {Body : Type 0} (spelling : Spelling) (env : Env Body) (call : Call Body) (b : Browser Db)
    (r : Text) (tokens : AuthTokens)
    → (endpoint_of call).is_public ≡ false
    → bearer_of (env.verify_access env.now) (bearer (present b.store.access)) ≡ none
    → present b.store.refresh ≡ some r
    → (refresh env.credentials env.draw env.now (spelling.number r) b.world).0 ≡ ok tokens
    → present (some (spelling.print tokens.access_token))
      ≡ some (spelling.print tokens.access_token)
    → let rotated = (refresh env.credentials env.draw env.now (spelling.number r) b.world).1 in
      let served =
        serve env (some (codes "Bearer " ++ spelling.print tokens.access_token)) call rotated in
      api (panel spelling env) call true false b ≡ (
        value_of (panel spelling env) false (response_of served.0),
        record { store = set (tokens_of spelling tokens); world = served.1 },
      )
client_recovers spelling env call b r tokens closed expired kept renewed nonempty =
    let token = bearer (present b.store.access) in
    let shut = serve_unknown env token call b.world closed expired in
    let given = serve_refresh env none (spelling.number r) b.world tokens renewed in
    api_renews (panel spelling env) call false b (response_of (err (unauthorized shut.0)))
      (response_of (ok (Reply.tokens tokens))) r b.world _
      (ap (λ x. (some (response_of x.0), x.1)) shut.1) refl kept
      (ap (λ x. (some (response_of x.0), x.1)) given) (tokens_of spelling tokens) _ _ refl refl
      (rw nonempty refl)
