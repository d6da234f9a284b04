-- ===== src/Sessions/Refinement.antt =====
-- The tables implement the accounts and sessions of the specification.
use std.Path.{fun_ext}
use text.Mathlib.Text.{◌==◌ as str_eq}
use fredoomeaxima.Common.{
  ℕ, ◌+◌, ◌*◌, ◌≡◌, refl, sym, ap, subst, ◌∙◌, String, true, false, ◌||◌, List, [], ◌∷◌, Option,
  none, some, inl, inr, arith, ltb, ◌==◌, ==_iff, ==-refl, any, Bool-cases, Option-cases,
}
use fredoomeaxima.Exec.{or_throw, throw_if}
use fredoomeaxima.Exec.Steps.{bind_leads}
use fredoomeaxima.Database.Tables.{update_where}
use fredoomeaxima.Database.{Db, User, UserRole, UserStatus, RefreshToken}
use fredoomeaxima.Auth.{
  Credentials, Draw, find_user, find_email, find_token, is_some, is_blocked, usable, admitted,
  revoke_where, create_token, create_user, issue_tokens, register, login, refresh, logout,
  revoke_all_for_user,
}
use fredoomeaxima.Users.{set_status, revoke_if}
use fredoomeaxima.Sessions.{Call, after}
use fredoomeaxima.Sessions.Opening.{
  Same, view-revoke_hash, own_hash, same_row, logout_closes, revoke_all_closes, create_token_opens,
}
use fredoomeaxima.Sessions.Registry.{
  Registry, close, close_all, opens, is_live, new_account, move, moves, view, entry_of, realm_of,
}
use fredoomeaxima.Sessions.Indexed.{IsIndexed, AreFresh, after_all, after-IsIndexed}

-- Tables with these accounts and tokens.
realm_path :
    (users : List User) (r : Registry) (db : Db)
    → db.users ≡ users
    → Same r (view db)
    → realm_of db ≡ (users, r)
realm_path users r db own same = ap (λ us. (us, view db)) own ∙ ap (λ v. (users, v)) (fun_ext same)

create_token-users : (t : RefreshToken) (db : Db) → (create_token t db).1.users ≡ db.users
unfolding create_token
create_token-users t db =
    elim (Bool-cases (any (λ r. r.token_hash == t.token_hash) db.refresh_tokens)) [
      | inl taken ↦ rw (taken, throw_if) refl
      | inr free ↦ rw (free, throw_if) refl
    ]

issue_tokens_moves :
    (c : Credentials) (draw : Draw) (now u : ℕ) (email : String) (role : UserRole) (db : Db)
    → realm_of (issue_tokens c draw now u email role db).1
      ≡ (db.users, opens c draw now u (view db))
unfolding issue_tokens
issue_tokens_moves c draw now u email role db =
    let P : Db → Type 0 = λ d. realm_of d ≡ (db.users, opens c draw now u (view db)) in
    let token : RefreshToken = record {
      id = draw.new_token_id;
      user_id = u;
      token_hash = c.hash_token (c.sign_refresh now u draw.jti);
      expires_at = now + c.refresh_ttl * 1000;
      revoked = false;
    } in
    bind_leads P P (create_token token) _ db
      (realm_path db.users (opens c draw now u (view db)) (create_token token db).1
        (create_token-users token db) (create_token_opens token db refl))
      (λ t q. q) (λ a t q. q)

register_moves :
    (c : Credentials) (draw : Draw) (now : ℕ) (email : String) (password : ℕ) (db : Db)
    → realm_of (register c draw now email password db).1
      ≡ move c (Call.registers draw now email password) (realm_of db)
unfolding register create_user move
register_moves c draw now email password db = elim (Bool-cases (is_some (find_email email db))) [
  | inl known ↦ rw (known, throw_if) refl
  | inr unknown ↦
      elim (Bool-cases (any (λ u. u.id == draw.new_user_id || str_eq u.email email) db.users)) [
        | inl taken ↦ rw (unknown, taken, throw_if) refl
        | inr free ↦
            rw (unknown, free, throw_if)
              (issue_tokens_moves c draw now draw.new_user_id email UserRole.user
                (record db { users = new_account c draw email password ∷ db.users }))
      ]
]

login_moves :
    (c : Credentials) (draw : Draw) (now : ℕ) (email : String) (password : ℕ) (db : Db)
    → realm_of (login c draw now email password db).1
      ≡ move c (Call.logs_in draw now email password) (realm_of db)
unfolding login move
login_moves c draw now email password db = elim (Option-cases (find_email email db)) [
  | inl unknown ↦ rw (unknown, or_throw) refl
  | inr (user, known) ↦ elim (Bool-cases (is_blocked user.status)) [
    | inl blocked ↦ rw (known, or_throw) (rw (blocked, throw_if) refl)
    | inr open_yet ↦ elim (Bool-cases (c.verify_password user.password_hash password)) [
      | inl valid ↦
          rw (known, or_throw)
            (rw (open_yet, valid, throw_if)
              (issue_tokens_moves c draw now user.id user.email user.role db))
      | inr wrong ↦ rw (known, or_throw) (rw (open_yet, wrong, throw_if) refl)
    ]
  ]
]

rotation_closes :
    (h : ℕ) (db : Db) (stored : RefreshToken)
    → IsIndexed db
    → find_token h db ≡ some stored
    → Same (close h (view db)) (view (revoke_where (λ t. t.id == stored.id) db))
rotation_closes h db stored indexed found =
    view-revoke_hash (λ t. t.id == stored.id) h db
      λ k t here_k. elim (Bool-cases (t.id == stored.id)) [
        | inl same ↦
            let one =
              same_row (λ r. r.token_hash == k) (λ r. r.token_hash == h) db.refresh_tokens t stored
                indexed.ids here_k found ((==_iff _ _).0 same) in
            let path : h ≡ k =
              sym (own_hash h db stored found)
              ∙ sym (ap (λ r. r.token_hash) one)
              ∙ own_hash k db t here_k in
            rw (same, path, ==-refl k) refl
        | inr other ↦ elim (Bool-cases (h == k)) [
          | inl hit ↦
              let again = subst (λ n. find_token n db ≡ some stored) ((==_iff _ _).0 hit) found in
              let one : t ≡ stored = cc (here_k, again) in
              absurd (ground (arith, ap (λ r. r.id) one, other))
          | inr miss ↦ rw (other, miss) refl
        ]
      ]

-- A token is usable exactly if it is live.
dead_row :
    (now : ℕ) (o : Option RefreshToken) → usable now o ≡ none → is_live now (entry_of o) ≡ false
unfolding usable
dead_row now none h = refl
dead_row now (some t) h = ground (arith, h)

live_row :
    (now : ℕ) (o : Option RefreshToken) (t : RefreshToken)
    → usable now o ≡ some t
    → (o ≡ some t) × (is_live now (entry_of o) ≡ true)
unfolding usable
live_row now none t h = absurd (ground arith)
live_row now (some r) t h = elim (Bool-cases (r.revoked || ltb r.expires_at now)) [
  | inl closed ↦ absurd (ground (arith, h, closed))
  | inr still ↦ (ground (arith, h, still), ground (arith, still))
]

refresh_moves :
    (c : Credentials) (draw : Draw) (now token : ℕ) (db : Db)
    → IsIndexed db
    → realm_of (refresh c draw now token db).1
      ≡ move c (Call.refreshes draw now token) (realm_of db)
unfolding refresh move
refresh_moves c draw now token db indexed =
    let h = c.hash_token token in
    elim (Option-cases (c.verify_refresh now token)) [
      | inl forged ↦ rw (forged, or_throw) refl
      | inr (sub, signed) ↦ elim (Option-cases (usable now (find_token h db))) [
        | inl dead ↦ rw (signed, dead, or_throw) (rw (dead_row now (find_token h db) dead) refl)
        | inr (stored, f) ↦
            let live = live_row now (find_token h db) stored f in
            elim (Option-cases (admitted (find_user sub db))) [
              | inl barred ↦ rw (signed, f, barred, or_throw) (rw (live.1, barred) refl)
              | inr (user, allowed) ↦
                  rw (signed, f, allowed, or_throw)
                    (rw (live.1, allowed)
                      (issue_tokens_moves c draw now user.id user.email user.role
                          (revoke_where (λ t. t.id == stored.id) db)
                        ∙ ap (λ r. (db.users, opens c draw now user.id r))
                            (fun_ext (rotation_closes h db stored indexed live.0))))
            ]
      ]
    ]

revoke_all-users : (u : ℕ) (db : Db) → (revoke_all_for_user u db).1.users ≡ db.users
unfolding revoke_all_for_user
revoke_all-users u db = refl

set_status_moves :
    (c : Credentials) (u : ℕ) (status : UserStatus) (db : Db)
    → realm_of (set_status u status db).1 ≡ move c (Call.sets_status u status) (realm_of db)
unfolding set_status is_blocked revoke_if move
set_status_moves c u UserStatus.active db = elim (Option-cases (find_user u db)) [
  | inl unknown ↦ rw (unknown, or_throw) refl
  | inr (user, known) ↦ rw (known, or_throw) refl
]
set_status_moves c u UserStatus.blocked db = elim (Option-cases (find_user u db)) [
  | inl unknown ↦ rw (unknown, or_throw) refl
  | inr (user, known) ↦
      rw (known, or_throw)
        (let db' : Db = record db {
          users =
              update_where (λ v. v.id == u) (λ v. record v { status = UserStatus.blocked })
                db.users;
        } in
          realm_path db'.users (close_all u (view db)) (revoke_all_for_user u db').1
            (revoke_all-users u db') (revoke_all_closes u db'))
]

-- Each call moves the accounts and the tokens as the specification says.
after-move :
    (c : Credentials) (call : Call) (db : Db)
    → IsIndexed db
    → realm_of (after c call db) ≡ move c call (realm_of db)
after-move c (Call.registers draw now email password) db indexed =
    register_moves c draw now email password db
after-move c (Call.logs_in draw now email password) db indexed =
    login_moves c draw now email password db
after-move c (Call.refreshes draw now token) db indexed = refresh_moves c draw now token db indexed
after-move c (Call.logs_out token) db indexed =
    unfold move logout in
    realm_path db.users (close (c.hash_token token) (view db)) (logout c token db).1 refl
      (logout_closes c token db)
after-move c (Call.sets_status u status) db indexed = set_status_moves c u status db

-- From tables with unique hashes and identifiers of refresh tokens, and with new identifiers that
-- no row has yet, any sequence of registrations, sign-ins, refreshes, sign-outs and changes of a
-- status leaves exactly the accounts and the tokens, each with its owner and its end, that the
-- specification computes: a registration or a sign-in opens a token for the account that the
-- address and the password name, unless the hash is taken; a refresh spends the live token it was
-- given and opens one for the account that the token is signed for; a sign-out spends its token,
-- and a block all tokens of the user; a refused call changes nothing.
pub after_all-moves :
    (c : Credentials) (calls : List Call) (db : Db)
    → IsIndexed db
    → AreFresh c calls db
    → realm_of (after_all c calls db) ≡ moves c calls (realm_of db)
unfolding after_all moves
after_all-moves c [] db indexed fresh = refl
after_all-moves c (call ∷ calls) db indexed fresh =
    after_all-moves c calls (after c call db) (after-IsIndexed c call db fresh.0 indexed) fresh.1
    ∙ ap (moves c calls) (after-move c call db indexed)
