-- ===== src/Sessions/Opening.antt =====
-- Rows of the table of refresh tokens as the abstract registry sees them.
use fredoomeaxima.Common.{
  ℕ, ◌≡◌, ◌≢◌, refl, sym, ap, subst, ◌∙◌, Bool, true, false, not, ◌&&◌, List, [], ◌∷◌, Option, none,
  some, inl, inr, arith, ◌==◌, ==_iff, ==-refl, find, any, find-holds, Bool-cases, if◌then◌else◌,
}
use fredoomeaxima.Exec.{throw_if}
use fredoomeaxima.Database.{Db, RefreshToken}
use fredoomeaxima.Database.Tables.{HasUnique, map_option, find-update_where}
use fredoomeaxima.Auth.{
  Credentials, find_token, revoke_token, revoke_where, create_token, logout, revoke_all_for_user,
}
use fredoomeaxima.Sessions.Registry.{
  Registry, Entry, fill, spend, spend_of, open_for, close, close_all, view, entry_of,
}

abbrev pub Same : Registry → Registry → Type 0
Same r s = (k : ℕ) → s k ≡ r k

absent-none :
    (h : ℕ) (ts : List RefreshToken)
    → any (λ t. t.token_hash == h) ts ≡ false
    → find (λ t. t.token_hash == h) ts ≡ none
unfolding any find
absent-none h [] a = refl
absent-none h (t ∷ ts) a = ground (arith, a, absent-none h ts)

-- Revoking the rows that a test selects, as the registry sees it.
view-revoke_where :
    (q : RefreshToken → Bool) (db : Db) (k : ℕ)
    → view (revoke_where q db) k
      ≡ entry_of (map_option (λ t. if q t then revoke_token t else t) (find_token k db))
view-revoke_where q db k =
    ap entry_of
      (find-update_where (λ t. t.token_hash == k) q revoke_token db.refresh_tokens (λ t. refl))

abbrev spent_if : (RefreshToken → Bool) → RefreshToken → RefreshToken
spent_if q t = if q t then revoke_token t else t

closed_row :
    (q : RefreshToken → Bool) (h k : ℕ) (o : Option RefreshToken)
    → ((t : RefreshToken) → o ≡ some t → q t ≡ (h == k))
    → entry_of (map_option (spent_if q) o) ≡ (if h == k then spend (entry_of o) else entry_of o)
closed_row q h k none picks = ground arith
closed_row q h k (some t) picks = ground (arith, picks t refl)

-- A test that picks the rows of one hash closes that hash.
pub view-revoke_hash :
    (q : RefreshToken → Bool) (h : ℕ) (db : Db)
    → ((k : ℕ) (t : RefreshToken) → find_token k db ≡ some t → q t ≡ (h == k))
    → Same (close h (view db)) (view (revoke_where q db))
view-revoke_hash q h db picks k =
    view-revoke_where q db k ∙ closed_row q h k (find_token k db) (picks k)

pub own_hash : (k : ℕ) (db : Db) (t : RefreshToken) → find_token k db ≡ some t → t.token_hash ≡ k
own_hash k db t found =
    (==_iff _ _).0 (find-holds (λ r. r.token_hash == k) db.refresh_tokens t found)

==-sym : (a b : ℕ) → (a == b) ≡ (b == a)
==-sym a b = ground arith

pub logout_closes :
    (c : Credentials) (token : ℕ) (db : Db)
    → Same (close (c.hash_token token) (view db)) (view (logout c token db).1)
unfolding logout
logout_closes c token db =
    view-revoke_hash (λ t. t.token_hash == c.hash_token token) (c.hash_token token) db
      λ k t found. rw (own_hash k db t found) (==-sym k (c.hash_token token))

found_id :
    (q : RefreshToken → Bool) (ts : List RefreshToken) (t : RefreshToken)
    → find q ts ≡ some t
    → any (λ z. z.id == t.id) ts ≡ true
unfolding find any
found_id q [] t f = absurd (ground arith)
found_id q (x ∷ ts) t f = elim (Bool-cases (q x)) [
  | inl hit ↦
      let same : x ≡ t = ground (arith, f, hit) in rw (ap (λ r. r.id) same, ==-refl t.id) refl
  | inr miss ↦ ground (arith, found_id q ts t (ground (arith, f, miss)))
]

no_double :
    (n : ℕ) (q : RefreshToken → Bool) (ts : List RefreshToken) (t : RefreshToken)
    → any (λ z. z.id == n) ts ≡ false
    → find q ts ≡ some t
    → n ≢ t.id
no_double n q ts t absent f same =
    let gone = subst (λ m. any (λ z. z.id == m) ts ≡ false) same absent in
    ground (arith, gone, found_id q ts t f)

-- Two rows with one identifier are one row.
pub same_row :
    (p q : RefreshToken → Bool) (ts : List RefreshToken) (r t : RefreshToken)
    → HasUnique (λ x. x.id) ts
    → find p ts ≡ some r
    → find q ts ≡ some t
    → r.id ≡ t.id
    → r ≡ t
unfolding find any
same_row p q [] r t u f g same = absurd (ground arith)
same_row p q (x ∷ ts) r t u f g same = elim (Bool-cases (p x)) [
  | inl here_p ↦ elim (Bool-cases (q x)) [
    | inl here_q ↦ ground (arith, f, g, here_p, here_q)
    | inr later_q ↦
        let first : x ≡ r = ground (arith, f, here_p) in
        absurd
          (no_double x.id q ts t u.0 (ground (arith, g, later_q)) (ap (λ y. y.id) first ∙ same))
  ]
  | inr later_p ↦ elim (Bool-cases (q x)) [
    | inl here_q ↦
        let first : x ≡ t = ground (arith, g, here_q) in
        absurd
          (no_double x.id p ts r u.0 (ground (arith, f, later_p)) (ap (λ y. y.id) first ∙ sym same))
    | inr later_q ↦
        same_row p q ts r t u.1 (ground (arith, f, later_p)) (ground (arith, g, later_q)) same
  ]
]

-- Revoking a user's rows closes the user's tokens.
all_row :
    (u : ℕ) (o : Option RefreshToken)
    → entry_of (map_option (spent_if (λ t. t.user_id == u && not t.revoked)) o)
      ≡ spend_of u (entry_of o)
all_row u none = refl
all_row u (some t) = ground arith

pub revoke_all_closes :
    (u : ℕ) (db : Db) → Same (close_all u (view db)) (view (revoke_all_for_user u db).1)
unfolding revoke_all_for_user
revoke_all_closes u db k =
    view-revoke_where (λ t. t.user_id == u && not t.revoked) db k ∙ all_row u (find_token k db)

opened_row :
    (t : RefreshToken) (ts : List RefreshToken) (k : ℕ)
    → t.revoked ≡ false
    → entry_of (find (λ r. r.token_hash == k) (t ∷ ts)) ≡ (
        if t.token_hash == k
        then Entry.opened t.user_id t.expires_at
        else entry_of (find (λ r. r.token_hash == k) ts))
unfolding find
opened_row t ts k unspent = ground (arith, unspent)

kept_entry :
    (h o e : ℕ) (ts : List RefreshToken)
    → any (λ t. t.token_hash == h) ts ≡ true
    → fill o e (entry_of (find (λ t. t.token_hash == h) ts))
      ≡ entry_of (find (λ t. t.token_hash == h) ts)
unfolding any find
kept_entry h o e [] a = absurd (ground arith)
kept_entry h o e (t ∷ ts) a = ground (arith, a, kept_entry h o e ts)

taken_row :
    (h o e k : ℕ) (ts : List RefreshToken)
    → any (λ t. t.token_hash == h) ts ≡ true
    → entry_of (find (λ t. t.token_hash == k) ts) ≡ (
        if h == k
        then fill o e (entry_of (find (λ t. t.token_hash == k) ts))
        else entry_of (find (λ t. t.token_hash == k) ts))
taken_row h o e k ts a = elim (Bool-cases (h == k)) [
  | inl same ↦ rw same (
      sym (
        kept_entry k o e ts
          (subst (λ n. any (λ t. t.token_hash == n) ts ≡ true) ((==_iff _ _).0 same) a)))
  | inr other ↦ rw other refl
]

free_row :
    (t : RefreshToken) (ts : List RefreshToken) (k : ℕ)
    → t.revoked ≡ false
    → any (λ r. r.token_hash == t.token_hash) ts ≡ false
    → entry_of (find (λ r. r.token_hash == k) (t ∷ ts)) ≡ (
        if t.token_hash == k
        then fill t.user_id t.expires_at (entry_of (find (λ r. r.token_hash == k) ts))
        else entry_of (find (λ r. r.token_hash == k) ts))
free_row t ts k unspent free = elim (Bool-cases (t.token_hash == k)) [
  | inl same ↦
      opened_row t ts k unspent
      ∙ rw
          (
            same,
            absent-none k ts
                (subst (λ n. any (λ r. r.token_hash == n) ts ≡ false) ((==_iff _ _).0 same) free),
          )
          refl
  | inr other ↦ opened_row t ts k unspent ∙ rw other refl
]

-- Storing a token opens it, unless its hash is there.
pub create_token_opens :
    (t : RefreshToken) (db : Db)
    → t.revoked ≡ false
    → Same (open_for t.token_hash t.user_id t.expires_at (view db)) (view (create_token t db).1)
unfolding create_token
create_token_opens t db unspent k =
    elim (Bool-cases (any (λ r. r.token_hash == t.token_hash) db.refresh_tokens)) [
      | inl taken ↦
          rw (taken, throw_if)
            (taken_row t.token_hash t.user_id t.expires_at k db.refresh_tokens taken)
      | inr free ↦ rw (free, throw_if) (free_row t db.refresh_tokens k unspent free)
    ]
