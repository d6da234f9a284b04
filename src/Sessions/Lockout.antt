-- ===== src/Sessions/Lockout.antt =====
-- Blocking a user: what the user's sessions can do until an administrator lifts the block.
use text.Mathlib.Text.{◌==◌ as str_eq}
use fredoomeaxima.Common.{
  ℕ, ◌≡◌, ◌≢◌, refl, ap, sym, subst, ◌∙◌, String, Bool, true, false, not, ◌||◌, List, [], ◌∷◌,
  Option, none, some, arith, ◌==◌, ==_iff, find, any, All, All-find, Bool-cases, inl, inr,
}
use fredoomeaxima.Exec.{throw_if, bind_keeps}
use fredoomeaxima.Exec.Steps.{or_throw_keeps, throw_if_keeps}
use fredoomeaxima.Database.{Db, User, UserRole, UserStatus, RefreshToken}
use fredoomeaxima.Database.Tables.{any-update_where, All-update_where}
use fredoomeaxima.Auth.{
  Credentials, Draw, is_some, find_user, find_email, find_token, is_blocked, usable, admitted,
  revoke_token, revoke_where, create_token, create_user, issue_tokens, register, login, refresh,
  logout, revoke_all_for_user,
}
use fredoomeaxima.Users.{set_status, revoke_if}
use fredoomeaxima.Sessions.{Call, Reaches, after}

abbrev pub IsRevokedFor : ℕ → RefreshToken → Type 0
IsRevokedFor u t = t.user_id ≡ u → t.revoked ≡ true

abbrev pub IsBlockedAs : ℕ → User → Type 0
IsBlockedAs u x = x.id ≡ u → x.status ≡ UserStatus.blocked

-- The user exists, is blocked, and has no refresh token that is not revoked.
pub record IsLocked (u : ℕ) (db : Db) : Type 0 where
  pub known : any (λ x. x.id == u) db.users ≡ true
  pub barred : All (IsBlockedAs u) db.users
  pub revoked : All (IsRevokedFor u) db.refresh_tokens

-- Every call but the one that lifts the block of the user.
abbrev pub KeepsBlock : ℕ → Call → Type 0
KeepsBlock u (Call.sets_status user_id status) = user_id ≡ u → status ≡ UserStatus.blocked
KeepsBlock u _ = Unit

revoke_where-IsLocked :
    (u : ℕ) (p : RefreshToken → Bool) (db : Db) → IsLocked u db → IsLocked u (revoke_where p db)
revoke_where-IsLocked u p db l = record {
  known = l.known;
  barred = l.barred;
  revoked =
      All-update_where (IsRevokedFor u) p revoke_token db.refresh_tokens (λ t hit old own. refl)
        l.revoked;
}

create_token-IsLocked :
    (u : ℕ) (token : RefreshToken) (db : Db)
    → token.user_id ≢ u
    → IsLocked u db
    → IsLocked u (create_token token db).1
unfolding create_token
create_token-IsLocked u token db other l =
    throw_if_keeps (IsLocked u) (any (λ t. t.token_hash == token.token_hash) db.refresh_tokens) _ _
      db l
      (λ fresh. record {
        known = l.known;
        barred = l.barred;
        revoked = (λ own. absurd (other own), l.revoked);
      })

issue_tokens-IsLocked :
    (u : ℕ) (c : Credentials) (draw : Draw) (now user_id : ℕ) (email : String) (role : UserRole)
    (db : Db)
    → user_id ≢ u
    → IsLocked u db
    → IsLocked u (issue_tokens c draw now user_id email role db).1
unfolding issue_tokens
issue_tokens-IsLocked u c draw now user_id email role db other l =
    bind_keeps (IsLocked u) (create_token _) _ db (create_token-IsLocked u _ db other l)
      (λ a t k. k)

open_other : (u : ℕ) (x : User) → IsBlockedAs u x → is_blocked x.status ≡ false → x.id ≢ u
unfolding is_blocked
open_other u x barred open_yet same = ground (arith, barred same)

found_other :
    (u : ℕ) (p : User → Bool) (db : Db) (x : User)
    → IsLocked u db
    → find p db.users ≡ some x
    → is_blocked x.status ≡ false
    → x.id ≢ u
found_other u p db x l found open_yet =
    open_other u x (All-find (IsBlockedAs u) p db.users x l.barred found) open_yet

untaken :
    (u id : ℕ) (email : String) (xs : List User)
    → any (λ x. x.id == u) xs ≡ true
    → any (λ x. x.id == id || str_eq x.email email) xs ≡ false
    → id ≢ u
unfolding any
untaken u id email [] known free same = ground arith
untaken u id email (x ∷ xs) known free same = elim (Bool-cases (x.id == u)) [
  | inl hit ↦ ground (arith, known, free, same)
  | inr miss ↦ untaken u id email xs (ground (arith, known, miss)) (ground (arith, free)) same
]

create_user-IsLocked :
    (u : ℕ) (user : User) (db : Db)
    → IsLocked u db
    → any (λ x. x.id == user.id || str_eq x.email user.email) db.users ≡ false
    → IsLocked u (record db { users = user ∷ db.users })
create_user-IsLocked u user db l free =
    let other = untaken u user.id user.email db.users l.known free in
    record {
      known = unfold any in ground (arith, l.known);
      barred = (λ same. absurd (other same), l.barred);
      revoked = l.revoked;
    }

register-IsLocked :
    (u : ℕ) (c : Credentials) (draw : Draw) (now : ℕ) (email : String) (password : ℕ) (db : Db)
    → IsLocked u db
    → IsLocked u (register c draw now email password db).1
unfolding register create_user
register-IsLocked u c draw now email password db l =
    throw_if_keeps (IsLocked u) (is_some (find_email email db)) _ _ db l (λ unknown.
      elim (Bool-cases (any (λ x. x.id == draw.new_user_id || str_eq x.email email) db.users)) [
        | inl taken ↦ rw (taken, throw_if) l
        | inr free ↦
            rw (free, throw_if)
              (issue_tokens-IsLocked u c draw now draw.new_user_id email UserRole.user _
                (untaken u draw.new_user_id email db.users l.known free)
                (create_user-IsLocked u _ db l free))
      ])

login-IsLocked :
    (u : ℕ) (c : Credentials) (draw : Draw) (now : ℕ) (email : String) (password : ℕ) (db : Db)
    → IsLocked u db
    → IsLocked u (login c draw now email password db).1
unfolding login
login-IsLocked u c draw now email password db l =
    or_throw_keeps (IsLocked u) _ (find_email email db) _ db l (λ user e.
      throw_if_keeps (IsLocked u) (is_blocked user.status) _ _ db l (λ open_yet.
        throw_if_keeps (IsLocked u) (not (c.verify_password user.password_hash password)) _ _ db l
          (λ valid.
            issue_tokens-IsLocked u c draw now user.id user.email user.role db
              (found_other u _ db user l e open_yet) l)))

admitted_row :
    (o : Option User) (x : User)
    → admitted o ≡ some x
    → (o ≡ some x) × (is_blocked x.status ≡ false)
unfolding admitted
admitted_row none x h = absurd (ground arith)
admitted_row (some y) x h = elim (Bool-cases (is_blocked y.status)) [
  | inl shut ↦ absurd (ground (arith, h, shut))
  | inr open_yet ↦
      let same : y ≡ x = ground (arith, h, open_yet) in
      (ap some same, subst (λ z. is_blocked z.status ≡ false) same open_yet)
]

refresh-IsLocked :
    (u : ℕ) (c : Credentials) (draw : Draw) (now token : ℕ) (db : Db)
    → IsLocked u db
    → IsLocked u (refresh c draw now token db).1
unfolding refresh
refresh-IsLocked u c draw now token db l =
    or_throw_keeps (IsLocked u) _ (c.verify_refresh now token) _ db l (λ sub e.
      or_throw_keeps (IsLocked u) _ (usable now (find_token (c.hash_token token) db)) _ db l
        (λ stored f. or_throw_keeps (IsLocked u) _ (admitted (find_user sub db)) _ db l (λ user g.
          let row = admitted_row (find_user sub db) user g in
          issue_tokens-IsLocked u c draw now user.id user.email user.role _
            (found_other u _ db user l row.0 row.1)
            (revoke_where-IsLocked u (λ t. t.id == stored.id) db l))))

revoke_if-IsLocked :
    (u user_id : ℕ) (b : Bool) (db : Db) → IsLocked u db → IsLocked u (revoke_if b user_id db).1
unfolding revoke_if revoke_all_for_user
revoke_if-IsLocked u user_id true db l = revoke_where-IsLocked u _ db l
revoke_if-IsLocked u user_id false db l = l

set_status-IsLocked :
    (u user_id : ℕ) (status : UserStatus) (db : Db)
    → (user_id ≡ u → status ≡ UserStatus.blocked)
    → IsLocked u db
    → IsLocked u (set_status user_id status db).1
unfolding set_status
set_status-IsLocked u user_id status db keeps l =
    or_throw_keeps (IsLocked u) _ (find_user user_id db) _ db l (λ user e.
      revoke_if-IsLocked u user_id (is_blocked status) _ (record {
        known = any-update_where (λ x. x.id == u) _ _ db.users (λ x. refl) ∙ l.known;
        barred =
            All-update_where (IsBlockedAs u) (λ x. x.id == user_id) _ db.users
              (λ x hit old own. keeps (sym ((==_iff _ _).0 hit) ∙ own)) l.barred;
        revoked = l.revoked;
      }))

after-IsLocked :
    (u : ℕ) (c : Credentials) (call : Call) (db : Db)
    → KeepsBlock u call
    → IsLocked u db
    → IsLocked u (after c call db)
after-IsLocked u c (Call.registers draw now email password) db k =
    register-IsLocked u c draw now email password db
after-IsLocked u c (Call.logs_in draw now email password) db k =
    login-IsLocked u c draw now email password db
after-IsLocked u c (Call.refreshes draw now token) db k = refresh-IsLocked u c draw now token db
after-IsLocked u c (Call.logs_out token) db k =
    unfold logout in revoke_where-IsLocked u (λ t. t.token_hash == c.hash_token token) db
after-IsLocked u c (Call.sets_status user_id status) db k =
    set_status-IsLocked u user_id status db k

pub Reaches-IsLocked :
    (u : ℕ) (c : Credentials) (db last : Db)
    → IsLocked u db
    → Reaches c (KeepsBlock u) db last
    → IsLocked u last
Reaches-IsLocked u c db last l (Reaches.here d) = l
Reaches-IsLocked u c db last l (Reaches.there d e call allowed rest) =
    Reaches-IsLocked u c _ last (after-IsLocked u c call db allowed l) rest
