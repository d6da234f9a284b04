-- ===== src/Sessions/Registry.antt =====
-- Sessions in the abstract: the accounts, and which refresh tokens are open, whose, and until when.
use text.Mathlib.Text.{◌==◌ as str_eq}
use fredoomeaxima.Common.{
  ℕ, ◌+◌, ◌*◌, String, Bool, true, false, not, ◌||◌, List, [], ◌∷◌, Option, none, some, ltb, ◌==◌,
  find, any, if◌then◌else◌,
}
use fredoomeaxima.Database.{Db, User, UserRole, UserStatus, RefreshToken}
use fredoomeaxima.Database.Tables.{update_where}
use fredoomeaxima.Auth.{Credentials, Draw, is_some, is_blocked, admitted, find_token}
use fredoomeaxima.Sessions.{Call}

-- What is known of a token: nothing, that it is spent, or its owner and its end.
pub data Entry : Type 0 where
  unused spent : Entry
  opened : (owner expires_at : ℕ) → Entry

-- By the token's hash.
abbrev pub Registry : Type 0
Registry = ℕ → Entry

abbrev pub Realm : Type 0
Realm = List User × Registry

abbrev pub fill : ℕ → ℕ → Entry → Entry
fill owner expires_at Entry.unused = Entry.opened owner expires_at
fill owner expires_at Entry.spent = Entry.spent
fill owner expires_at (Entry.opened o e) = Entry.opened o e

abbrev pub spend : Entry → Entry
spend Entry.unused = Entry.unused
spend Entry.spent = Entry.spent
spend (Entry.opened o e) = Entry.spent

abbrev pub spend_of : ℕ → Entry → Entry
spend_of u Entry.unused = Entry.unused
spend_of u Entry.spent = Entry.spent
spend_of u (Entry.opened o e) = if o == u then Entry.spent else Entry.opened o e

abbrev pub is_live : ℕ → Entry → Bool
is_live now Entry.unused = false
is_live now Entry.spent = false
is_live now (Entry.opened o e) = not (ltb e now)

-- A token whose hash is taken is not opened again.
abbrev pub open_for : (h owner expires_at : ℕ) → Registry → Registry
open_for h owner expires_at r k = if h == k then fill owner expires_at (r k) else r k

abbrev pub close : ℕ → Registry → Registry
close h r k = if h == k then spend (r k) else r k

abbrev pub close_all : ℕ → Registry → Registry
close_all u r k = spend_of u (r k)

-- The token that this call draws is opened for the user.
abbrev pub opens : Credentials → Draw → (now owner : ℕ) → Registry → Registry
opens c draw now owner =
    open_for (c.hash_token (c.sign_refresh now owner draw.jti)) owner (now + c.refresh_ttl * 1000)

-- The account whose address and password these are, unless it is blocked.
abbrev pub account_if : Bool → User → Option User
account_if true u = some u
account_if false u = none

abbrev pub signs_in : Credentials → ℕ → Option User → Option User
signs_in c password none = none
signs_in c password (some u) =
    if is_blocked u.status then none else account_if (c.verify_password u.password_hash password) u

-- The account that the token's signature names, if the token is live and the account not blocked.
abbrev pub renews : Bool → List User → Option ℕ → Option User
renews live users none = none
renews false users (some sub) = none
renews true users (some sub) = admitted (find (λ u. u.id == sub) users)

abbrev pub opens_for :
    Credentials → Draw → ℕ → Option User → (before unchanged : Registry) → Registry
opens_for c draw now none before unchanged = unchanged
opens_for c draw now (some u) before unchanged = opens c draw now u.id before

abbrev pub is_taken : ℕ → String → List User → Bool
is_taken id email users =
    is_some (find (λ (u : User). str_eq u.email email) users)
    || any (λ (u : User). u.id == id || str_eq u.email email) users

abbrev pub new_account : Credentials → Draw → String → ℕ → User
new_account c draw email password = record {
  id = draw.new_user_id;
  email = email;
  password_hash = c.hash_password draw.salt password;
  role = UserRole.user;
  status = UserStatus.active;
}

-- What each call does to the accounts and to the tokens. A registration opens a token for its new
-- account, a sign-in for the account it names; a refresh spends the token it was given before it
-- opens one for that token's account; a sign-out spends its token, a block all of a user's.
unfoldable pub move : Credentials → Call → Realm → Realm
move c (Call.registers draw now email password) (users, r) =
    if is_taken draw.new_user_id email users
    then (users, r)
    else (new_account c draw email password ∷ users, opens c draw now draw.new_user_id r)
move c (Call.logs_in draw now email password) (users, r) = (
  users,
  opens_for c draw now (signs_in c password (find (λ (u : User). str_eq u.email email) users)) r r,
)
move c (Call.refreshes draw now token) (users, r) = (
  users,
  opens_for c draw now
      (renews (is_live now (r (c.hash_token token))) users (c.verify_refresh now token))
      (close (c.hash_token token) r) r,
)
move c (Call.logs_out token) (users, r) = (users, close (c.hash_token token) r)
move c (Call.sets_status u status) (users, r) =
    if is_some (find (λ (v : User). v.id == u) users)
    then (
      update_where (λ v. v.id == u) (λ v. record v { status = status }) users,
      if is_blocked status then close_all u r else r,
    )
    else (users, r)

unfoldable pub moves : Credentials → List Call → Realm → Realm
moves c [] realm = realm
moves c (call ∷ calls) realm = moves c calls (move c call realm)

abbrev pub entry_of : Option RefreshToken → Entry
entry_of none = Entry.unused
entry_of (some t) = if t.revoked then Entry.spent else Entry.opened t.user_id t.expires_at

-- The tokens of the tables as the registry has them.
abbrev pub view : Db → Registry
view db h = entry_of (find_token h db)

abbrev pub realm_of : Db → Realm
realm_of db = (db.users, view db)
