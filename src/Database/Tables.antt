-- ===== src/Database/Tables.antt =====
-- Reading and writing tables: the rows that a `where` selects, and laws of changing them.
use fredoomeaxima.Common.{
  ℕ, suc, ◌≡◌, refl, ap, Bool, true, false, List, [], ◌∷◌, Option, none, some, arith, ◌==◌, ◌&&◌,
  if◌then◌else◌, length, find, any, all, All, ltb, not, ◌||◌, Bool-cases, inl, inr, subst, ==_iff,
}

module _ {ℓ} {A : Type ℓ} where
  -- Changes the rows that the test selects.
  unfoldable pub update_where : (A → Bool) → (A → A) → List A → List A
  update_where p f [] = []
  update_where p f (r ∷ rs) = (if p r then f r else r) ∷ update_where p f rs

  abbrev pub map_option : (A → A) → Option A → Option A
  map_option f none = none
  map_option f (some a) = some (f a)

  -- The number of selected rows.
  unfoldable pub count : (A → Bool) → List A → ℕ
  count p [] = 0
  count p (r ∷ rs) = let n = count p rs in if p r then suc n else n

  -- Keeps the row at which `key` is greater, the first one if both are equal.
  unfoldable pub greater : (A → ℕ) → A → Option A → Option A
  greater key r none = some r
  greater key r (some q) = if ltb (key r) (key q) then some q else some r

  -- `findFirst` with `orderBy: { key: 'desc' }`
  unfoldable pub greatest : (A → ℕ) → List A → Option A
  unfolding greater
  greatest key [] = none
  greatest key (r ∷ rs) = greater key r (greatest key rs)

  -- No two rows have the same key.
  abbrev pub HasUnique : (A → ℕ) → List A → Type 0
  HasUnique key [] = Unit {0}
  HasUnique key (r ∷ rs) = (any (λ q. key q == key r) rs ≡ false) × HasUnique key rs

  pub length-update_where :
      (p : A → Bool) (f : A → A) (rs : List A) → length (update_where p f rs) ≡ length rs
  unfolding update_where
  length-update_where p f [] = refl
  length-update_where p f (r ∷ rs) = ap suc (length-update_where p f rs)

  -- A change that keeps what a test reads keeps the selection's size.
  pub count-update_where :
      (q p : A → Bool) (f : A → A) (rs : List A)
      → ((r : A) → q (f r) ≡ q r)
      → count q (update_where p f rs) ≡ count q rs
  unfolding update_where count
  count-update_where q p f [] h = refl
  count-update_where q p f (r ∷ rs) h = ground (arith, h r, count-update_where q p f rs h)

  pub any-update_where :
      (q p : A → Bool) (f : A → A) (rs : List A)
      → ((r : A) → q (f r) ≡ q r)
      → any q (update_where p f rs) ≡ any q rs
  unfolding update_where any
  any-update_where q p f [] h = refl
  any-update_where q p f (r ∷ rs) h = ground (arith, h r, any-update_where q p f rs h)

  pub HasUnique-update_where :
      (key : A → ℕ) (p : A → Bool) (f : A → A) (rs : List A)
      → ((r : A) → key (f r) ≡ key r)
      → HasUnique key rs
      → HasUnique key (update_where p f rs)
  unfolding update_where
  HasUnique-update_where key p f [] h u = tt
  HasUnique-update_where key p f (r ∷ rs) h u = ground (
    arith,
    h r,
    HasUnique-update_where key p f rs h u.1,
    any-update_where (λ q. key q == key r) p f rs (λ q. rw (h q)),
  )

  -- What a change that keeps the searched test does to the row found.
  pub find-update_where :
      (p q : A → Bool) (f : A → A) (rs : List A)
      → ((r : A) → p (f r) ≡ p r)
      → find p (update_where q f rs) ≡ map_option (λ r. if q r then f r else r) (find p rs)
  unfolding update_where find
  find-update_where p q f [] h = refl
  find-update_where p q f (r ∷ rs) h = ground (arith, h r, find-update_where p q f rs h)

  -- Making the same change again changes nothing.
  pub update_where_twice :
      (q : A → Bool) (f : A → A) (rs : List A)
      → ((r : A) → q (f r) ≡ q r)
      → ((r : A) → f (f r) ≡ f r)
      → update_where q f (update_where q f rs) ≡ update_where q f rs
  unfolding update_where
  update_where_twice q f [] h k = refl
  update_where_twice q f (r ∷ rs) h k = ground (arith, h r, k r, update_where_twice q f rs h k)

  absent_all :
      (key : A → ℕ) (k : ℕ) (p : A → Bool) (rs : List A)
      → any (λ q. key q == k) rs ≡ false
      → all (λ r. not (key r == k) || p r) rs ≡ true
  unfolding any all
  absent_all key k p [] h = refl
  absent_all key k p (r ∷ rs) h = ground (arith, absent_all key k p rs)

  absent_any :
      (key : A → ℕ) (k : ℕ) (p : A → Bool) (rs : List A)
      → any (λ q. key q == k) rs ≡ false
      → any (λ r. key r == k && p r) rs ≡ false
  unfolding any
  absent_any key k p [] h = refl
  absent_any key k p (r ∷ rs) h = ground (arith, absent_any key k p rs)

  -- Under unique keys, what holds of one row with a key holds of all of them.
  pub unique_rows :
      (key : A → ℕ) (k : ℕ) (p : A → Bool) (rs : List A)
      → HasUnique key rs
      → any (λ r. key r == k && p r) rs ≡ true
      → all (λ r. not (key r == k) || p r) rs ≡ true
  unfolding any all
  unique_rows key k p [] u h = refl
  unique_rows key k p (r ∷ rs) u h = elim (Bool-cases (key r == k)) [
    | inl same ↦
        let none_left = subst (λ j. any (λ q. key q == j) rs ≡ false) ((==_iff _ _).0 same) u.0 in
        ground (arith, absent_all key k p rs none_left, absent_any key k p rs none_left)
    | inr other ↦ ground (arith, unique_rows key k p rs u.1)
  ]

  -- A change that keeps `P` on the rows it selects keeps it on all.
  pub All-update_where {κ} :
      (P : A → Type κ) (q : A → Bool) (f : A → A) (rs : List A)
      → ((r : A) → q r ≡ true → P r → P (f r))
      → All P rs
      → All P (update_where q f rs)
  unfolding update_where
  All-update_where P q f [] h a = tt
  All-update_where P q f (r ∷ rs) h a = elim (Bool-cases (q r)) [
    | inl hit ↦ rw hit (h r hit a.0, All-update_where P q f rs h a.1)
    | inr miss ↦ rw miss (a.0, All-update_where P q f rs h a.1)
  ]

  pub found_present : (p : A → Bool) (rs : List A) (r : A) → find p rs ≡ some r → any p rs ≡ true
  unfolding find any
  found_present p [] r h = absurd (ground arith)
  found_present p (q ∷ rs) r h = ground (arith, found_present p rs r)

  -- What holds of the value, if there is one.
  abbrev pub OfSome {κ} : (A → Type κ) → Option A → Type κ
  OfSome P none = Unit
  OfSome P (some a) = P a

  OfSome-greater {κ} :
      (P : A → Type κ) (key : A → ℕ) (r : A) (o : Option A)
      → P r
      → OfSome P o
      → OfSome P (greater key r o)
  unfolding greater
  OfSome-greater P key r none p q = p
  OfSome-greater P key r (some s) p q = elim (Bool-cases (ltb (key r) (key s))) [
    | inl less ↦ rw less q
    | inr more ↦ rw more p
  ]

  pub OfSome-greatest {κ} :
      (P : A → Type κ) (key : A → ℕ) (rs : List A) → All P rs → OfSome P (greatest key rs)
  unfolding greatest
  OfSome-greatest P key [] a = tt
  OfSome-greatest P key (r ∷ rs) a =
      OfSome-greater P key r (greatest key rs) a.0 (OfSome-greatest P key rs a.1)
