-- ===== src/Sessions/Rotation.antt =====
-- Refresh tokens whose row is revoked, and what the calls do to them.
use text.Mathlib.Text.{◌==◌ as str_eq}
use fredoomeaxima.Common.{
  ℕ, ◌≡◌, ◌≢◌, refl, subst, ◌∙◌, String, Bool, true, false, not, ◌||◌, List, arith, ◌==◌, any, All,
}
use fredoomeaxima.Exec.{bind_keeps}
use fredoomeaxima.Exec.Steps.{or_throw_keeps, throw_if_keeps}
use fredoomeaxima.Database.{Db, User, UserRole, UserStatus, RefreshToken}
use fredoomeaxima.Database.Tables.{any-update_where, All-update_where}
use fredoomeaxima.Auth.{
  Credentials, Draw, is_some, find_user, find_email, find_token, is_blocked, usable, admitted,
  revoke_token, revoke_where, create_token, create_user, issue_tokens, register, login, refresh,
  logout, revoke_all_for_user,
}
use fredoomeaxima.Users.{set_status, revoke_if}
use fredoomeaxima.Sessions.{Call, Reaches, after}

-- There is a row with the hash, and all rows with it are revoked.
pub record IsSpent (h : ℕ) (db : Db) : Type 0 where
  pub present : any (λ t. t.token_hash == h) db.refresh_tokens ≡ true
  pub closed : All (λ t. t.token_hash ≡ h → t.revoked ≡ true) db.refresh_tokens

pub revoke_where-IsSpent :
    (h : ℕ) (p : RefreshToken → Bool) (db : Db) → IsSpent h db → IsSpent h (revoke_where p db)
revoke_where-IsSpent h p db s = record {
  present =
      any-update_where (λ t. t.token_hash == h) p revoke_token db.refresh_tokens (λ t. refl)
      ∙ s.present;
  closed =
      All-update_where (λ t. t.token_hash ≡ h → t.revoked ≡ true) p revoke_token db.refresh_tokens
        (λ t hit old same. refl) s.closed;
}

differs :
    (h k : ℕ) (ts : List RefreshToken)
    → any (λ t. t.token_hash == h) ts ≡ true
    → any (λ t. t.token_hash == k) ts ≡ false
    → k ≢ h
differs h k ts present absent same =
    ground (arith, subst (λ n. any (λ t. t.token_hash == n) ts ≡ false) same absent)

create_token-IsSpent :
    (h : ℕ) (token : RefreshToken) (db : Db) → IsSpent h db → IsSpent h (create_token token db).1
unfolding create_token
create_token-IsSpent h token db s =
    throw_if_keeps (IsSpent h) (any (λ t. t.token_hash == token.token_hash) db.refresh_tokens) _ _
      db s
      (λ fresh.
        let new = differs h token.token_hash db.refresh_tokens s.present fresh in
        record {
          present = unfold any in ground (arith, s.present);
          closed = (λ same. absurd (new same), s.closed);
        })

pub issue_tokens-IsSpent :
    (h : ℕ) (c : Credentials) (draw : Draw) (now user_id : ℕ) (email : String) (role : UserRole)
    (db : Db)
    → IsSpent h db
    → IsSpent h (issue_tokens c draw now user_id email role db).1
unfolding issue_tokens
issue_tokens-IsSpent h c draw now user_id email role db s =
    bind_keeps (IsSpent h) (create_token _) _ db (create_token-IsSpent h _ db s) (λ a t k. k)

create_user-IsSpent :
    (h : ℕ) (user : User) (db : Db) → IsSpent h db → IsSpent h (create_user user db).1
unfolding create_user
create_user-IsSpent h user db s =
    throw_if_keeps (IsSpent h) (any (λ u. u.id == user.id || str_eq u.email user.email) db.users) _
      _ db s (λ free. record { present = s.present; closed = s.closed })

register-IsSpent :
    (h : ℕ) (c : Credentials) (draw : Draw) (now : ℕ) (email : String) (password : ℕ) (db : Db)
    → IsSpent h db
    → IsSpent h (register c draw now email password db).1
unfolding register
register-IsSpent h c draw now email password db s =
    throw_if_keeps (IsSpent h) (is_some (find_email email db)) _ _ db s (λ unknown.
      bind_keeps (IsSpent h) (create_user _) _ db (create_user-IsSpent h _ db s)
        (λ a t k. issue_tokens-IsSpent h c draw now draw.new_user_id email UserRole.user t k))

login-IsSpent :
    (h : ℕ) (c : Credentials) (draw : Draw) (now : ℕ) (email : String) (password : ℕ) (db : Db)
    → IsSpent h db
    → IsSpent h (login c draw now email password db).1
unfolding login
login-IsSpent h c draw now email password db s =
    or_throw_keeps (IsSpent h) _ (find_email email db) _ db s (λ user e.
      throw_if_keeps (IsSpent h) (is_blocked user.status) _ _ db s (λ open_yet.
        throw_if_keeps (IsSpent h) (not (c.verify_password user.password_hash password)) _ _ db s
          (λ valid. issue_tokens-IsSpent h c draw now user.id user.email user.role db s)))

refresh-IsSpent :
    (h : ℕ) (c : Credentials) (draw : Draw) (now token : ℕ) (db : Db)
    → IsSpent h db
    → IsSpent h (refresh c draw now token db).1
unfolding refresh
refresh-IsSpent h c draw now token db s =
    or_throw_keeps (IsSpent h) _ (c.verify_refresh now token) _ db s (λ sub e.
      or_throw_keeps (IsSpent h) _ (usable now (find_token (c.hash_token token) db)) _ db s
        (λ stored f. or_throw_keeps (IsSpent h) _ (admitted (find_user sub db)) _ db s (λ user g.
          issue_tokens-IsSpent h c draw now user.id user.email user.role _
            (revoke_where-IsSpent h (λ t. t.id == stored.id) db s))))

revoke_if-IsSpent :
    (h user_id : ℕ) (b : Bool) (db : Db) → IsSpent h db → IsSpent h (revoke_if b user_id db).1
unfolding revoke_if revoke_all_for_user
revoke_if-IsSpent h user_id true db s = revoke_where-IsSpent h _ db s
revoke_if-IsSpent h user_id false db s = s

set_status-IsSpent :
    (h user_id : ℕ) (status : UserStatus) (db : Db)
    → IsSpent h db
    → IsSpent h (set_status user_id status db).1
unfolding set_status
set_status-IsSpent h user_id status db s =
    or_throw_keeps (IsSpent h) _ (find_user user_id db) _ db s (λ user e.
      revoke_if-IsSpent h user_id (is_blocked status) _
        (record { present = s.present; closed = s.closed }))

after-IsSpent :
    (h : ℕ) (c : Credentials) (call : Call) (db : Db) → IsSpent h db → IsSpent h (after c call db)
after-IsSpent h c (Call.registers draw now email password) db =
    register-IsSpent h c draw now email password db
after-IsSpent h c (Call.logs_in draw now email password) db =
    login-IsSpent h c draw now email password db
after-IsSpent h c (Call.refreshes draw now token) db = refresh-IsSpent h c draw now token db
after-IsSpent h c (Call.logs_out token) db =
    unfold logout in revoke_where-IsSpent h (λ t. t.token_hash == c.hash_token token) db
after-IsSpent h c (Call.sets_status user_id status) db = set_status-IsSpent h user_id status db

pub Reaches-IsSpent :
    {Allowed : Call → Type 0} (h : ℕ) (c : Credentials) (db last : Db)
    → IsSpent h db
    → Reaches c Allowed db last
    → IsSpent h last
Reaches-IsSpent h c db last s (Reaches.here d) = s
Reaches-IsSpent h c db last s (Reaches.there d e call allowed rest) =
    Reaches-IsSpent h c _ last (after-IsSpent h c call db s) rest
