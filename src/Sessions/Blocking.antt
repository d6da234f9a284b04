-- ===== src/Sessions/Blocking.antt =====
-- Blocking a user, and how the sign-in and refresh of a blocked user are answered.
use fredoomeaxima.Common.{
  ℕ, ◌≡◌, refl, sym, subst, ◌∙◌, String, true, false, not, ◌&&◌, List, [], ◌∷◌, none, some, arith,
  ◌==◌, ==_iff, any, find-holds, All, All-find, Bool-cases, Option-cases, inl, inr,
}
use fredoomeaxima.Exec.{ok, err, unauthorized, forbidden, or_throw, throw_if}
use fredoomeaxima.Exec.Steps.{or_throw_ok}
use fredoomeaxima.Database.{Db, User, UserStatus, RefreshToken}
use fredoomeaxima.Database.Tables.{found_present, update_where, any-update_where}
use fredoomeaxima.Auth.{
  Credentials, Draw, find_user, find_email, find_token, is_blocked, usable, admitted, revoke_token,
  login, refresh, revoke_all_for_user,
}
use fredoomeaxima.Users.{set_status, revoke_if}
use fredoomeaxima.Sessions.{Reaches}
use fredoomeaxima.Sessions.Lockout.{
  IsLocked, IsBlockedAs, IsRevokedFor, KeepsBlock, Reaches-IsLocked,
}

all_barred :
    (u : ℕ) (xs : List User)
    → All
        (IsBlockedAs u)
        (update_where (λ x. x.id == u) (λ x. record x { status = UserStatus.blocked }) xs)
unfolding update_where
all_barred u [] = tt
all_barred u (x ∷ xs) = elim (Bool-cases (x.id == u)) [
  | inl hit ↦ rw hit ((λ own. refl), all_barred u xs)
  | inr miss ↦ rw miss ((λ own. ground (arith, own, miss)), all_barred u xs)
]

all_revoked :
    (u : ℕ) (ts : List RefreshToken)
    → All (IsRevokedFor u) (update_where (λ t. t.user_id == u && not t.revoked) revoke_token ts)
unfolding update_where
all_revoked u [] = tt
all_revoked u (t ∷ ts) = elim (Bool-cases (t.user_id == u && not t.revoked)) [
  | inl hit ↦ rw hit ((λ own. refl), all_revoked u ts)
  | inr miss ↦ rw miss ((λ own. ground (arith, own, miss)), all_revoked u ts)
]

blocking_locks :
    (u : ℕ) (db : Db)
    → (set_status u UserStatus.blocked db).0 ≡ ok tt
    → IsLocked u (set_status u UserStatus.blocked db).1
unfolding set_status is_blocked revoke_if revoke_all_for_user
blocking_locks u db h =
    let found = or_throw_ok _ (find_user u db) _ db tt h in
    subst (λ r. IsLocked u r.1) (sym found.3)
      (record {
        known =
            any-update_where (λ x. x.id == u) _ _ db.users (λ x. refl)
            ∙ found_present (λ x. x.id == u) db.users found.0 found.1;
        barred = all_barred u db.users;
        revoked = all_revoked u db.refresh_tokens;
      })

barred_status : (o : UserStatus) → o ≡ UserStatus.blocked → is_blocked o ≡ true
unfolding is_blocked
barred_status o h = ground (arith, h)

login_barred :
    (u : ℕ) (c : Credentials) (draw : Draw) (now : ℕ) (email : String) (password : ℕ) (db : Db)
    (user : User)
    → IsLocked u db
    → find_email email db ≡ some user
    → user.id ≡ u
    → login c draw now email password db ≡ (err (forbidden "Account is blocked"), db)
unfolding login
login_barred u c draw now email password db user l found own =
    let shut =
      barred_status user.status (All-find (IsBlockedAs u) _ db.users user l.barred found own) in
    rw (found, or_throw) (rw (shut, throw_if) refl)

admitted_barred : (x : User) → is_blocked x.status ≡ true → admitted (some x) ≡ none
unfolding admitted
admitted_barred x h = ground (arith, h)

unavailable_barred : (u : ℕ) (db : Db) → IsLocked u db → admitted (find_user u db) ≡ none
unavailable_barred u db l = elim (Option-cases (find_user u db)) [
  | inl e ↦ rw e (unfold admitted in refl)
  | inr x ↦
      let own = (==_iff _ _).0 (find-holds (λ y. y.id == u) db.users x.0 x.1) in
      rw x.1 (
        admitted_barred x.0
          (barred_status x.0.status (All-find (IsBlockedAs u) _ db.users x.0 l.barred x.1 own)))
]

refresh_barred :
    (u : ℕ) (c : Credentials) (draw : Draw) (now token : ℕ) (db : Db)
    → IsLocked u db
    → c.verify_refresh now token ≡ some u
    → (message : String) × (refresh c draw now token db ≡ (err (unauthorized message), db))
unfolding refresh
refresh_barred u c draw now token db l signed =
    elim (Option-cases (usable now (find_token (c.hash_token token) db))) [
      | inl e ↦ ("Refresh token revoked or expired", rw (signed, or_throw) (rw (e, or_throw) refl))
      | inr t ↦ (
        "User unavailable",
        rw (signed, or_throw) (rw (t.1, or_throw) (rw (unavailable_barred u db l, or_throw) refl)),
      )
    ]

spent_all :
    (u : ℕ) (ts : List RefreshToken)
    → All (IsRevokedFor u) ts
    → any (λ t. t.user_id == u && not t.revoked) ts ≡ false
unfolding any
spent_all u [] a = refl
spent_all u (t ∷ ts) a = elim (Bool-cases (t.user_id == u)) [
  | inl own ↦ ground (arith, a.0 ((==_iff _ _).0 own), spent_all u ts a.1)
  | inr other ↦ ground (arith, other, spent_all u ts a.1)
]

-- After a user was blocked, and whatever calls follow that do not set the user active again: the
-- user has no refresh token left that is not revoked, a sign-in with an address that belongs to
-- the user is forbidden whatever the password, and a refresh token that verifies as the user's is
-- refused as unauthorized; both write nothing.
pub blocked_shut_out :
    (u : ℕ) (c : Credentials) (db last : Db) (draw : Draw) (now : ℕ) (email : String)
    (password token : ℕ) (user : User)
    → (set_status u UserStatus.blocked db).0 ≡ ok tt
    → Reaches c (KeepsBlock u) (set_status u UserStatus.blocked db).1 last
    → find_email email last ≡ some user
    → user.id ≡ u
    → c.verify_refresh now token ≡ some u
    → (any (λ t. t.user_id == u && not t.revoked) last.refresh_tokens ≡ false)
      × (login c draw now email password last ≡ (err (forbidden "Account is blocked"), last))
      × (message : String) × (refresh c draw now token last ≡ (err (unauthorized message), last))
blocked_shut_out u c db last draw now email password token user h calls found own signed =
    let l = Reaches-IsLocked u c _ last (blocking_locks u db h) calls in
    let refused = refresh_barred u c draw now token last l signed in
    (
      spent_all u last.refresh_tokens l.revoked,
      login_barred u c draw now email password last user l found own,
      refused.0,
      refused.1,
    )
