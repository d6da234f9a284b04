-- ===== src/Auth.antt =====
-- apps/api/src/auth/auth.service.ts: registration, login and the rotation of refresh tokens.
-- Signing and verifying tokens, hashing, random values and the clock are arguments.
pub mod Frame
use text.Mathlib.Text.{◌==◌ as str_eq}
use fredoomeaxima.Common.{
  ℕ, ◌+◌, ◌*◌, String, Bool, true, false, not, ◌&&◌, ◌||◌, ◌∷◌, Option, none, some, ltb, ◌==◌, find,
  any, if◌then◌else◌,
}
use fredoomeaxima.Exec.{
  unauthorized, forbidden, conflict, internal, Exec, pure, gets, modify, or_throw, throw_if, ◌>>=◌,
  ◌>>◌,
}
use fredoomeaxima.Database.{Db, User, UserRole, UserStatus, RefreshToken}
use fredoomeaxima.Database.Tables.{update_where}

pub record AuthTokens : Type 0 where
  pub access_token : ℕ
  pub refresh_token : ℕ
  pub expires_in : ℕ

-- argon2, the JWT library with the secrets, SHA-256, and the configured lifetimes in seconds. A
-- refresh token that verifies gives its `sub`.
pub record Credentials : Type 0 where
  pub hash_password : (salt password : ℕ) → ℕ
  pub verify_password : (password_hash password : ℕ) → Bool
  pub sign_access : (now user_id : ℕ) → String → UserRole → ℕ
  pub sign_refresh : (now user_id jti : ℕ) → ℕ
  pub verify_refresh : (now token : ℕ) → Option ℕ
  pub hash_token : ℕ → ℕ
  pub access_ttl : ℕ
  pub refresh_ttl : ℕ

-- The random values and the new identifiers that one call may use.
pub record Draw : Type 0 where
  pub new_user_id : ℕ
  pub new_token_id : ℕ
  pub salt : ℕ
  pub jti : ℕ

unfoldable pub is_blocked : UserStatus → Bool
is_blocked UserStatus.blocked = true
is_blocked UserStatus.active = false

abbrev pub find_user : ℕ → Db → Option User
find_user id db = find (λ u. u.id == id) db.users

abbrev pub find_email : String → Db → Option User
find_email email db = find (λ u. str_eq u.email email) db.users

abbrev pub find_token : ℕ → Db → Option RefreshToken
find_token token_hash db = find (λ t. t.token_hash == token_hash) db.refresh_tokens

abbrev pub unique_failed : String
unique_failed = "Unique constraint failed"

-- `refreshToken.create`, with the unique constraint on the hash.
unfoldable pub create_token : RefreshToken → Exec Db (Unit {0})
create_token token = do
  taken ← gets (λ db. any (λ t. t.token_hash == token.token_hash) db.refresh_tokens)
  throw_if taken (internal unique_failed)
  modify (λ db. record db { refresh_tokens = token ∷ db.refresh_tokens })

unfoldable pub issue_tokens :
    Credentials → Draw → (now user_id : ℕ) → String → UserRole → Exec Db AuthTokens
unfolding create_token
issue_tokens c draw now user_id email role = do
  let refresh_token = c.sign_refresh now user_id draw.jti
  create_token (record {
    id = draw.new_token_id;
    user_id = user_id;
    token_hash = c.hash_token refresh_token;
    expires_at = now + c.refresh_ttl * 1000;
    revoked = false;
  })
  pure (record {
    access_token = c.sign_access now user_id email role;
    refresh_token = refresh_token;
    expires_in = c.access_ttl;
  })

-- `user.create`, with the unique constraints on the identifier and the address.
unfoldable pub create_user : User → Exec Db (Unit {0})
create_user user = do
  taken ← gets (λ db. any (λ u. u.id == user.id || str_eq u.email user.email) db.users)
  throw_if taken (internal unique_failed)
  modify (λ db. record db { users = user ∷ db.users })

abbrev pub is_some {ℓ} : {A : Type ℓ} → Option A → Bool
is_some none = false
is_some (some a) = true

unfoldable pub register : Credentials → Draw → ℕ → String → ℕ → Exec Db AuthTokens
unfolding create_user
register c draw now email password = do
  existing ← gets (find_email email)
  throw_if (is_some existing) (conflict "Email already registered")
  create_user (record {
    id = draw.new_user_id;
    email = email;
    password_hash = c.hash_password draw.salt password;
    role = UserRole.user;
    status = UserStatus.active;
  })
  issue_tokens c draw now draw.new_user_id email UserRole.user

unfoldable pub login : Credentials → Draw → ℕ → String → ℕ → Exec Db AuthTokens
unfolding is_blocked
login c draw now email password = do
  found ← gets (find_email email)
  user ← or_throw (unauthorized "Invalid credentials") found
  throw_if (is_blocked user.status) (forbidden "Account is blocked")
  throw_if (not (c.verify_password user.password_hash password))
      (unauthorized "Invalid credentials")
  issue_tokens c draw now user.id user.email user.role

-- `!stored || stored.revoked || stored.expiresAt < new Date()` keeps no row.
unfoldable pub usable : ℕ → Option RefreshToken → Option RefreshToken
usable now none = none
usable now (some t) = if t.revoked || ltb t.expires_at now then none else some t

-- `!user || user.status === BLOCKED` keeps no user.
unfoldable pub admitted : Option User → Option User
unfolding is_blocked
admitted none = none
admitted (some u) = if is_blocked u.status then none else some u

abbrev pub revoke_token : RefreshToken → RefreshToken
revoke_token t = record t { revoked = true }

abbrev pub revoke_where : (RefreshToken → Bool) → Db → Db
revoke_where p db = record db { refresh_tokens = update_where p revoke_token db.refresh_tokens }

unfoldable pub refresh : Credentials → Draw → (now token : ℕ) → Exec Db AuthTokens
unfolding usable admitted
refresh c draw now token = do
  sub ← or_throw (unauthorized "Invalid refresh token") (c.verify_refresh now token)
  found ← gets (find_token (c.hash_token token))
  stored ← or_throw (unauthorized "Refresh token revoked or expired") (usable now found)
  account ← gets (find_user sub)
  user ← or_throw (unauthorized "User unavailable") (admitted account)
  modify (revoke_where (λ t. t.id == stored.id))
  issue_tokens c draw now user.id user.email user.role

unfoldable pub logout : Credentials → ℕ → Exec Db (Unit {0})
logout c token = modify (revoke_where (λ t. t.token_hash == c.hash_token token))

unfoldable pub revoke_all_for_user : ℕ → Exec Db (Unit {0})
revoke_all_for_user user_id = modify (revoke_where (λ t. t.user_id == user_id && not t.revoked))
