-- ===== src/Sessions/Reuse.antt =====
-- Using a refresh token again after a refresh or a logout.
use fredoomeaxima.Common.{
  ℕ, ◌≡◌, refl, sym, subst, ◌∙◌, String, Bool, true, false, List, [], ◌∷◌, Option, none, some,
  arith, ◌==◌, ==_iff, ==-refl, find, any, find-holds, All, All-find, Bool-cases, Option-cases, inl,
  inr,
}
use fredoomeaxima.Exec.{ok, err, unauthorized, or_throw}
use fredoomeaxima.Exec.Steps.{or_throw_ok}
use fredoomeaxima.Database.{Db, RefreshToken}
use fredoomeaxima.Database.Tables.{found_present, HasUnique, update_where, any-update_where}
use fredoomeaxima.Auth.{
  Credentials, Draw, AuthTokens, find_user, find_token, usable, admitted, revoke_token,
  revoke_where, refresh, logout,
}
use fredoomeaxima.Sessions.{Call, Reaches}
use fredoomeaxima.Sessions.Rotation.{IsSpent, issue_tokens-IsSpent, Reaches-IsSpent}

usable-none : (now : ℕ) (t : RefreshToken) → t.revoked ≡ true → usable now (some t) ≡ none
unfolding usable
usable-none now t h = ground arith

closed_row : (now h : ℕ) (db : Db) → IsSpent h db → usable now (find_token h db) ≡ none
closed_row now h db s = elim (Option-cases (find_token h db)) [
  | inl e ↦ rw e (unfold usable in refl)
  | inr t ↦
      let own = (==_iff _ _).0 (find-holds (λ r. r.token_hash == h) db.refresh_tokens t.0 t.1) in
      rw t.1 (
        usable-none now t.0 (
          All-find (λ r. r.token_hash ≡ h → r.revoked ≡ true) (λ r. r.token_hash == h)
            db.refresh_tokens t.0 s.closed t.1 own))
]

-- A spent token is refused: either it no longer verifies, or its row is revoked.
spent_refused :
    (c : Credentials) (draw : Draw) (now token : ℕ) (db : Db)
    → IsSpent (c.hash_token token) db
    → (message : String) × (refresh c draw now token db ≡ (err (unauthorized message), db))
unfolding refresh
spent_refused c draw now token db s = elim (Option-cases (c.verify_refresh now token)) [
  | inl e ↦ ("Invalid refresh token", rw (e, or_throw) refl)
  | inr sub ↦ (
    "Refresh token revoked or expired",
    rw (sub.1, or_throw) (rw (closed_row now (c.hash_token token) db s, or_throw) refl),
  )
]

Closed : ℕ → List RefreshToken → Type 0
Closed h ts = All (λ t. t.token_hash ≡ h → t.revoked ≡ true) ts

absent-Closed :
    (h : ℕ) (p : RefreshToken → Bool) (ts : List RefreshToken)
    → any (λ t. t.token_hash == h) ts ≡ false
    → Closed h (update_where p revoke_token ts)
unfolding Closed any update_where
absent-Closed h p [] absent = tt
absent-Closed h p (r ∷ ts) absent = elim (Bool-cases (p r)) [
  | inl hit ↦ rw hit ((λ same. refl), absent-Closed h p ts (ground (arith, absent)))
  | inr miss ↦
      rw miss ((λ same. ground (arith, absent)), absent-Closed h p ts (ground (arith, absent)))
]

hit-Closed :
    (h : ℕ) (ts : List RefreshToken)
    → Closed h (update_where (λ t. t.token_hash == h) revoke_token ts)
unfolding Closed update_where
hit-Closed h [] = tt
hit-Closed h (r ∷ ts) = elim (Bool-cases (r.token_hash == h)) [
  | inl hit ↦ rw hit ((λ same. refl), hit-Closed h ts)
  | inr miss ↦ rw miss ((λ same. ground (arith, same, miss)), hit-Closed h ts)
]

-- With unique hashes, revoking the row found closes all rows with the hash.
revoke_found :
    (h : ℕ) (ts : List RefreshToken) (t : RefreshToken)
    → HasUnique (λ r. r.token_hash) ts
    → find (λ r. r.token_hash == h) ts ≡ some t
    → Closed h (update_where (λ r. r.id == t.id) revoke_token ts)
unfolding Closed find update_where
revoke_found h [] t u f = tt
revoke_found h (r ∷ ts) t u f = elim (Bool-cases (r.token_hash == h)) [
  | inl hit ↦
      let same : r.id ≡ t.id = ground (arith, f, hit) in
      let own = (==_iff _ _).0 hit in
      rw (same, ==-refl t.id)
        (
          (λ again. refl),
          absent-Closed h (λ q. q.id == t.id) ts
              (subst (λ n. any (λ q. q.token_hash == n) ts ≡ false) own u.0),
        )
  | inr miss ↦ elim (Bool-cases (r.id == t.id)) [
    | inl same ↦ rw same ((λ own. refl), revoke_found h ts t u.1 (ground (arith, f, miss)))
    | inr other ↦
        rw other
          ((λ own. ground (arith, own, miss)), revoke_found h ts t u.1 (ground (arith, f, miss)))
  ]
]

usable_row :
    (now : ℕ) (o : Option RefreshToken) (t : RefreshToken) → usable now o ≡ some t → o ≡ some t
unfolding usable
usable_row now none t h = h
usable_row now (some r) t h = ground (arith, h)

-- The row of the token that a successful refresh has found is revoked by it.
refresh_spends :
    (c : Credentials) (draw : Draw) (now token : ℕ) (db : Db) (tokens : AuthTokens)
    → HasUnique (λ t. t.token_hash) db.refresh_tokens
    → (refresh c draw now token db).0 ≡ ok tokens
    → IsSpent (c.hash_token token) (refresh c draw now token db).1
unfolding refresh Closed
refresh_spends c draw now token db tokens u h =
    let h_token = c.hash_token token in
    let sub = or_throw_ok _ (c.verify_refresh now token) _ db tokens h in
    let stored = or_throw_ok _ (usable now (find_token h_token db)) _ db tokens sub.2 in
    let user = or_throw_ok _ (admitted (find_user sub.0 db)) _ db tokens stored.2 in
    let row = usable_row now (find_token h_token db) stored.0 stored.1 in
    let spent : IsSpent h_token (revoke_where (λ t. t.id == stored.0.id) db) = record {
      present =
          any-update_where (λ t. t.token_hash == h_token) _ revoke_token db.refresh_tokens
            (λ t. refl)
          ∙ found_present (λ t. t.token_hash == h_token) db.refresh_tokens stored.0 row;
      closed = revoke_found h_token db.refresh_tokens stored.0 u row;
    } in
    subst (λ r. IsSpent h_token r.1) (sym (sub.3 ∙ stored.3 ∙ user.3))
      (issue_tokens-IsSpent h_token c draw now user.0.id user.0.email user.0.role _ spent)

-- After a refresh that succeeded, whatever calls follow, a further refresh with the same token is
-- refused as unauthorized and writes nothing. The hashes of the stored tokens are distinct, which
-- the table's unique index says.
pub refresh_once :
    {Allowed : Call → Type 0} (c : Credentials) (draw again : Draw) (now later token : ℕ)
    (db last : Db) (tokens : AuthTokens)
    → HasUnique (λ t. t.token_hash) db.refresh_tokens
    → (refresh c draw now token db).0 ≡ ok tokens
    → Reaches c Allowed (refresh c draw now token db).1 last
    → (message : String) × (refresh c again later token last ≡ (err (unauthorized message), last))
refresh_once c draw again now later token db last tokens u h calls =
    spent_refused c again later token last (
      Reaches-IsSpent (c.hash_token token) c _ last (refresh_spends c draw now token db tokens u h)
        calls)

-- After a logout, whatever calls follow, a refresh with the token is refused as unauthorized and
-- writes nothing, if a row with its hash was stored.
pub logout_ends :
    {Allowed : Call → Type 0} (c : Credentials) (draw : Draw) (now token : ℕ) (db last : Db)
    → any (λ t. t.token_hash == c.hash_token token) db.refresh_tokens ≡ true
    → Reaches c Allowed (logout c token db).1 last
    → (message : String) × (refresh c draw now token last ≡ (err (unauthorized message), last))
unfolding logout Closed
logout_ends c draw now token db last known calls = spent_refused c draw now token last (
    Reaches-IsSpent (c.hash_token token) c _ last
      (record {
        present =
            any-update_where (λ t. t.token_hash == c.hash_token token) _ revoke_token
              db.refresh_tokens (λ t. refl)
            ∙ known;
        closed = hit-Closed (c.hash_token token) db.refresh_tokens;
      })
      calls)
