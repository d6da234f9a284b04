-- ===== src/Auth/Frame.antt =====
-- What opening and closing sessions keeps.
use fredoomeaxima.Common.{ℕ, String}
use fredoomeaxima.Database.{Db, User, UserRole, RefreshToken}
use fredoomeaxima.Auth.{
  Credentials, Draw, create_token, issue_tokens, create_user, register, login, refresh, logout,
}
use fredoomeaxima.Exec.Keeps.{Keeps, keeps_rules}
use fredoomeaxima.Database.Frame.{Frame}

module _ (P : Db → Type 0) (frame : Frame P) where
  create_token-Keeps : (t : RefreshToken) → Keeps P (create_token t)
  unfolding create_token
  create_token-Keeps t = search (keeps_rules, frame.refresh_tokens) depth 12

  issue_tokens-Keeps :
      (c : Credentials) (draw : Draw) (now user_id : ℕ) (email : String) (role : UserRole)
      → Keeps P (issue_tokens c draw now user_id email role)
  unfolding issue_tokens
  issue_tokens-Keeps c draw now user_id email role =
      search (keeps_rules, create_token-Keeps) depth 12

  create_user-Keeps : (u : User) → Keeps P (create_user u)
  unfolding create_user
  create_user-Keeps u = search (keeps_rules, frame.users) depth 12

  pub register-Keeps :
      (c : Credentials) (draw : Draw) (now : ℕ) (email : String) (password : ℕ)
      → Keeps P (register c draw now email password)
  unfolding register
  register-Keeps c draw now email password =
      search (keeps_rules, create_user-Keeps, issue_tokens-Keeps) depth 12

  pub login-Keeps :
      (c : Credentials) (draw : Draw) (now : ℕ) (email : String) (password : ℕ)
      → Keeps P (login c draw now email password)
  unfolding login
  login-Keeps c draw now email password = search (keeps_rules, issue_tokens-Keeps) depth 12

  pub refresh-Keeps :
      (c : Credentials) (draw : Draw) (now token : ℕ) → Keeps P (refresh c draw now token)
  unfolding refresh
  refresh-Keeps c draw now token =
      search (keeps_rules, issue_tokens-Keeps, frame.refresh_tokens) depth 14

  pub logout-Keeps : (c : Credentials) (token : ℕ) → Keeps P (logout c token)
  unfolding logout
  logout-Keeps c token = search (keeps_rules, frame.refresh_tokens) depth 12
