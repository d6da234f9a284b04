-- ===== src/Api/Router/Refreshing.antt =====
-- The request that exchanges a refresh token.
use fredoomeaxima.Common.{ℕ, ◌≡◌, refl, ◌∙◌, Option}
use fredoomeaxima.Text.{Text}
use fredoomeaxima.Exec.{ok, continue}
use fredoomeaxima.Database.{Db}
use fredoomeaxima.Auth.{AuthTokens, refresh}
use fredoomeaxima.Api.{Env, Reply}
use fredoomeaxima.Api.Guards.{guarded_public}
use fredoomeaxima.Api.Auth.{AuthCall, endpoint as auth_endpoint, handle as handle_auth}
use fredoomeaxima.Api.Router.{Call, serve, endpoint_of, handle_of}

-- It is served to anyone, as the service answers.
pub serve_refresh :
    {Body : Type 0} (env : Env Body) (authorization : Option Text) (token : ℕ) (db : Db)
    (tokens : AuthTokens)
    → (refresh env.credentials env.draw env.now token db).0 ≡ ok tokens
    → serve env authorization (Call.auth (AuthCall.refresh token)) db
      ≡ (ok (Reply.tokens tokens), (refresh env.credentials env.draw env.now token db).1)
unfolding serve auth_endpoint handle_auth
serve_refresh {Body} env authorization token db tokens h =
    guarded_public (env.verify_access env.now)
      (endpoint_of {Body = Body} (Call.auth (AuthCall.refresh token))) authorization
      (handle_of env (Call.auth (AuthCall.refresh token))) db refl refl
    ∙ rw (h, continue) refl
