-- ===== src/Sessions/Indexed.antt =====
-- The unique indexes of the table of refresh tokens.
use text.Mathlib.Text.{◌==◌ as str_eq}
use fredoomeaxima.Common.{
  ℕ, ◌≡◌, refl, ◌∙◌, String, List, [], ◌∷◌, Bool, false, not, ◌||◌, ◌==◌, any,
}
use fredoomeaxima.Exec.Steps.{bind_leads, or_throw_keeps, throw_if_keeps}
use fredoomeaxima.Database.{Db, User, UserRole, UserStatus, RefreshToken}
use fredoomeaxima.Database.Tables.{HasUnique, HasUnique-update_where, any-update_where}
use fredoomeaxima.Auth.{
  Credentials, Draw, is_some, find_user, find_email, find_token, is_blocked, usable, admitted,
  revoke_token, revoke_where, create_token, create_user, issue_tokens, register, login, refresh,
  logout, revoke_all_for_user,
}
use fredoomeaxima.Users.{set_status, revoke_if}
use fredoomeaxima.Sessions.{Call, after}

pub record IsIndexed (db : Db) : Type 0 where
  pub hashes : HasUnique (λ t. t.token_hash) db.refresh_tokens
  pub ids : HasUnique (λ t. t.id) db.refresh_tokens

abbrev pub Unused : ℕ → Db → Type 0
Unused id db = any (λ t. t.id == id) db.refresh_tokens ≡ false

-- A call draws an identifier that no stored token has.
abbrev pub IsFresh : Call → Db → Type 0
IsFresh (Call.registers draw now email password) db = Unused draw.new_token_id db
IsFresh (Call.logs_in draw now email password) db = Unused draw.new_token_id db
IsFresh (Call.refreshes draw now token) db = Unused draw.new_token_id db
IsFresh (Call.logs_out token) db = Unit {0}
IsFresh (Call.sets_status u status) db = Unit {0}

-- The calls one after another.
unfoldable pub after_all : Credentials → List Call → Db → Db
after_all c [] db = db
after_all c (call ∷ calls) db = after_all c calls (after c call db)

-- Each call draws a new identifier.
abbrev pub AreFresh : Credentials → List Call → Db → Type 0
AreFresh c [] db = Unit {0}
AreFresh c (call ∷ calls) db = IsFresh call db × AreFresh c calls (after c call db)

revoke_where-IsIndexed :
    (q : RefreshToken → Bool) (db : Db) → IsIndexed db → IsIndexed (revoke_where q db)
revoke_where-IsIndexed q db i = record {
  hashes =
      HasUnique-update_where (λ t. t.token_hash) q revoke_token db.refresh_tokens (λ t. refl)
        i.hashes;
  ids = HasUnique-update_where (λ t. t.id) q revoke_token db.refresh_tokens (λ t. refl) i.ids;
}

create_token-IsIndexed :
    (t : RefreshToken) (db : Db) → Unused t.id db → IsIndexed db → IsIndexed (create_token t db).1
unfolding create_token
create_token-IsIndexed t db unused i =
    throw_if_keeps IsIndexed (any (λ r. r.token_hash == t.token_hash) db.refresh_tokens) _ _ db i
      (λ free. record { hashes = (free, i.hashes); ids = (unused, i.ids) })

issue_tokens-IsIndexed :
    (c : Credentials) (draw : Draw) (now u : ℕ) (email : String) (role : UserRole) (db : Db)
    → Unused draw.new_token_id db
    → IsIndexed db
    → IsIndexed (issue_tokens c draw now u email role db).1
unfolding issue_tokens
issue_tokens-IsIndexed c draw now u email role db unused i =
    bind_leads IsIndexed IsIndexed (create_token _) _ db (create_token-IsIndexed _ db unused i)
      (λ t j. j) (λ a t j. j)

abbrev Ready : ℕ → Db → Type 0
Ready id db = Unused id db × IsIndexed db

create_user-Ready :
    (id : ℕ) (user : User) (db : Db) → Ready id db → Ready id (create_user user db).1
unfolding create_user
create_user-Ready id user db r =
    throw_if_keeps (Ready id) (any (λ u. u.id == user.id || str_eq u.email user.email) db.users) _ _
      db r (λ free. (r.0, record { hashes = r.1.hashes; ids = r.1.ids }))

register-IsIndexed :
    (c : Credentials) (draw : Draw) (now : ℕ) (email : String) (password : ℕ) (db : Db)
    → Unused draw.new_token_id db
    → IsIndexed db
    → IsIndexed (register c draw now email password db).1
unfolding register
register-IsIndexed c draw now email password db unused i =
    throw_if_keeps IsIndexed (is_some (find_email email db)) _ _ db i (λ unknown.
      bind_leads (Ready draw.new_token_id) IsIndexed (create_user _) _ db
        (create_user-Ready draw.new_token_id _ db (unused, i)) (λ t r. r.1)
        (λ a t r. issue_tokens-IsIndexed c draw now draw.new_user_id email UserRole.user t r.0 r.1))

login-IsIndexed :
    (c : Credentials) (draw : Draw) (now : ℕ) (email : String) (password : ℕ) (db : Db)
    → Unused draw.new_token_id db
    → IsIndexed db
    → IsIndexed (login c draw now email password db).1
unfolding login
login-IsIndexed c draw now email password db unused i =
    or_throw_keeps IsIndexed _ (find_email email db) _ db i (λ user e.
      throw_if_keeps IsIndexed (is_blocked user.status) _ _ db i (λ open_yet.
        throw_if_keeps IsIndexed (not (c.verify_password user.password_hash password)) _ _ db i
          (λ valid. issue_tokens-IsIndexed c draw now user.id user.email user.role db unused i)))

refresh-IsIndexed :
    (c : Credentials) (draw : Draw) (now token : ℕ) (db : Db)
    → Unused draw.new_token_id db
    → IsIndexed db
    → IsIndexed (refresh c draw now token db).1
unfolding refresh
refresh-IsIndexed c draw now token db unused i =
    or_throw_keeps IsIndexed _ (c.verify_refresh now token) _ db i λ sub e.
      or_throw_keeps IsIndexed _ (usable now (find_token (c.hash_token token) db)) _ db i
        λ stored f. or_throw_keeps IsIndexed _ (admitted (find_user sub db)) _ db i λ user g.
          issue_tokens-IsIndexed c draw now user.id user.email user.role
            (revoke_where (λ t. t.id == stored.id) db)
            (any-update_where (λ t. t.id == draw.new_token_id) _ revoke_token db.refresh_tokens
                (λ t. refl)
              ∙ unused)
            (revoke_where-IsIndexed (λ t. t.id == stored.id) db i)

set_status-IsIndexed :
    (u : ℕ) (status : UserStatus) (db : Db) → IsIndexed db → IsIndexed (set_status u status db).1
unfolding set_status is_blocked revoke_if revoke_all_for_user
set_status-IsIndexed u UserStatus.active db i =
    or_throw_keeps IsIndexed _ (find_user u db) _ db i
      (λ user e. record { hashes = i.hashes; ids = i.ids })
set_status-IsIndexed u UserStatus.blocked db i =
    or_throw_keeps IsIndexed _ (find_user u db) _ db i
      (λ user e. revoke_where-IsIndexed _ _ (record { hashes = i.hashes; ids = i.ids }))

pub after-IsIndexed :
    (c : Credentials) (call : Call) (db : Db)
    → IsFresh call db
    → IsIndexed db
    → IsIndexed (after c call db)
after-IsIndexed c (Call.registers draw now email password) db unused =
    register-IsIndexed c draw now email password db unused
after-IsIndexed c (Call.logs_in draw now email password) db unused =
    login-IsIndexed c draw now email password db unused
after-IsIndexed c (Call.refreshes draw now token) db unused =
    refresh-IsIndexed c draw now token db unused
after-IsIndexed c (Call.logs_out token) db unused = unfold logout in revoke_where-IsIndexed _ db
after-IsIndexed c (Call.sets_status u status) db unused = set_status-IsIndexed u status db
