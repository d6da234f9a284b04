-- ===== src/Api/Auth.antt =====
-- apps/api/src/auth/auth.controller.ts
use fredoomeaxima.Common.{ℕ, String, Option}
use fredoomeaxima.Exec.{Exec, pure, gets, ◌>>=◌, ◌>>◌}
use fredoomeaxima.Database.{Db}
use fredoomeaxima.Auth.{
  find_user, register as sign_up, login as sign_in, refresh as rotate, logout as sign_out,
}
use fredoomeaxima.Api.{AuthUser, Method, Endpoint, Env, Reply, current_user, for_users, for_all}

pub data AuthCall : Type 0 where
  register : (email : String) → (password : ℕ) → AuthCall
  login : (email : String) → (password : ℕ) → AuthCall
  refresh : (token : ℕ) → AuthCall
  logout : (token : ℕ) → AuthCall
  me : AuthCall

unfoldable pub endpoint : AuthCall → Endpoint
endpoint (AuthCall.register email password) = for_all Method.post "auth/register"
endpoint (AuthCall.login email password) = for_all Method.post "auth/login"
endpoint (AuthCall.refresh token) = for_all Method.post "auth/refresh"
endpoint (AuthCall.logout token) = for_all Method.post "auth/logout"
endpoint AuthCall.me = for_users Method.get "auth/me"

unfoldable pub handle : {Body : Type 0} → Env Body → Option AuthUser → AuthCall → Exec Db Reply
handle env who (AuthCall.register email password) = do
  t ← sign_up env.credentials env.draw env.now email password
  pure (Reply.tokens t)
handle env who (AuthCall.login email password) = do
  t ← sign_in env.credentials env.draw env.now email password
  pure (Reply.tokens t)
handle env who (AuthCall.refresh token) = do
  t ← rotate env.credentials env.draw env.now token
  pure (Reply.tokens t)
handle env who (AuthCall.logout token) = do sign_out env.credentials token; pure Reply.done
handle env who AuthCall.me = do
  user ← current_user who
  found ← gets (find_user user.id)
  pure (Reply.account found)
