-- ===== src/AdminBilling/Totals.antt =====
-- The sums by currency.
use text.Mathlib.Text.{◌==◌ as str_eq}
use text.Mathlib.TextEquality.{eq_iff}
use fredoomeaxima.Common.{
  ℕ, ◌+◌, ◌≡◌, refl, sym, ◌∙◌, String, Bool, true, false, ◌&&◌, List, [], ◌∷◌, map, filter, arith,
  Bool-cases, inl, inr, if◌then◌else◌,
}
use fredoomeaxima.Database.{Db, Server, Payment}
use fredoomeaxima.AdminBilling.{
  add_to, sum_from, sum_by_currency, is_paid, since, is_before, insert_server, by_renewal, overview,
}

-- What the object holds for a currency, 0 if nothing.
unfoldable pub total_of : String → List (String × ℕ) → ℕ
total_of currency [] = 0
total_of currency ((key, total) ∷ rest) =
    let later = total_of currency rest in if str_eq key currency then total else later

-- The amounts of the rows whose field is the currency, added up.
unfoldable pub sum_of {ℓ} : {A : Type ℓ} → (A → Bool) → (A → ℕ) → List A → ℕ
sum_of p f [] = 0
sum_of p f (r ∷ rs) = let rest = sum_of p f rs in if p r then f r + rest else rest

str_eq-true : (s t : String) → s ≡ t → str_eq s t ≡ true
str_eq-true s t = (eq_iff s t).1

str_eq_trans : (k j c : String) → str_eq j k ≡ true → str_eq j c ≡ str_eq k c
str_eq_trans k j c h = rw ((eq_iff j k).0 h) refl

apart : (k j c : String) → str_eq j k ≡ false → str_eq j c ≡ true → str_eq k c ≡ false
apart k j c h e = elim (Bool-cases (str_eq k c)) [
  | inl same ↦
      let joined : j ≡ k = (eq_iff j c).0 e ∙ sym ((eq_iff k c).0 same) in
      absurd (ground (arith, h, str_eq-true j k joined))
  | inr other ↦ other
]

abbrev amount_if : Bool → ℕ → ℕ
amount_if true amount = amount
amount_if false amount = 0

total_of-add_to :
    (c k : String) (a : ℕ) (ts : List (String × ℕ))
    → total_of c (add_to k a ts) ≡ amount_if (str_eq k c) a + total_of c ts
unfolding total_of add_to
total_of-add_to c k a [] = elim (Bool-cases (str_eq k c)) [
  | inl hit ↦ rw hit (omega arith)
  | inr miss ↦ rw miss (omega arith)
]
total_of-add_to c k a ((j, total) ∷ ts) = elim (Bool-cases (str_eq j k)) [
  | inl same ↦ elim (Bool-cases (str_eq k c)) [
    | inl hit ↦ rw (same, hit, str_eq_trans k j c same ∙ hit) (omega arith)
    | inr miss ↦ rw (same, miss, str_eq_trans k j c same ∙ miss) (omega arith)
  ]
  | inr other ↦ elim (Bool-cases (str_eq j c)) [
    | inl hit ↦ rw (other, hit, apart k j c other hit) (omega arith)
    | inr miss ↦ rw (other, miss) (total_of-add_to c k a ts)
  ]
]

total_of-sum_from :
    (c : String) (ts rows : List (String × ℕ))
    → total_of c (sum_from ts rows) ≡ total_of c ts + sum_of (λ r. str_eq r.0 c) (λ r. r.1) rows
unfolding sum_from sum_of
total_of-sum_from c ts [] = omega arith
total_of-sum_from c ts ((k, a) ∷ rows) =
    let rest = total_of-sum_from c (add_to k a ts) rows in
    let first = total_of-add_to c k a ts in
    elim (Bool-cases (str_eq k c)) [
      | inl hit ↦ rw hit (omega (arith, rest, (rw hit at first)))
      | inr miss ↦ rw miss (omega (arith, rest, (rw miss at first)))
    ]

module _ {A : Type 0} (key : A → String) (amount : A → ℕ) where
  row_of : A → String × ℕ
  row_of x = (key x, amount x)

  sum_of-map :
      (c : String) (xs : List A)
      → sum_of (λ r. str_eq r.0 c) (λ r. r.1) (map (λ x. row_of x) xs)
        ≡ sum_of (λ x. str_eq (key x) c) amount xs
  unfolding sum_of row_of
  sum_of-map c [] = refl
  sum_of-map c (x ∷ xs) = rw (sum_of-map c xs) refl

  total_of-rows :
      (c : String) (xs : List A)
      → total_of c (sum_by_currency (map (λ x. row_of x) xs))
        ≡ sum_of (λ x. str_eq (key x) c) amount xs
  unfolding sum_by_currency total_of
  total_of-rows c xs =
      let summed = total_of-sum_from c [] (map (λ x. row_of x) xs) in
      omega (arith, summed, sum_of-map c xs)

module _ {ℓ} {A : Type ℓ} where
  sum_of-filter :
      (p q : A → Bool) (f : A → ℕ) (xs : List A)
      → sum_of p f (filter q xs) ≡ sum_of (λ x. q x && p x) f xs
  unfolding sum_of filter
  sum_of-filter p q f [] = refl
  sum_of-filter p q f (x ∷ xs) = elim (Bool-cases (q x)) [
    | inl hit ↦ rw (hit, sum_of-filter p q f xs) refl
    | inr miss ↦ rw (miss, sum_of-filter p q f xs) refl
  ]

sum_of-insert_server :
    (p : Server → Bool) (f : Server → ℕ) (s : Server) (ss : List Server)
    → sum_of p f (insert_server s ss) ≡ sum_of p f (s ∷ ss)
unfolding insert_server sum_of
sum_of-insert_server p f s [] = refl
sum_of-insert_server p f s (t ∷ ts) =
    elim (Bool-cases (is_before s.next_renewal_at t.next_renewal_at)) [
      | inl first ↦ rw first refl
      | inr behind ↦ rw behind (ground (arith, sum_of-insert_server p f s ts))
    ]

sum_of-by_renewal :
    (p : Server → Bool) (f : Server → ℕ) (ss : List Server)
    → sum_of p f (by_renewal ss) ≡ sum_of p f ss
unfolding by_renewal sum_of
sum_of-by_renewal p f [] = refl
sum_of-by_renewal p f (s ∷ ss) =
    sum_of-insert_server p f s (by_renewal ss) ∙ rw (sum_of-by_renewal p f ss) refl

-- For every currency, the reported monthly cost is the sum of the costs of the servers in that
-- currency, and the reported revenue is the sum of the amounts, in that currency, of the payments
-- that succeeded or were marked as paid and whose time of payment is not before the month's start;
-- a currency without any reads as 0.
pub overview-total_of :
    (month_start : ℕ) (db : Db) (c : String)
    → (total_of c (overview month_start db).monthly_cost_by_currency
        ≡ sum_of (λ s. str_eq s.cost_currency c) (λ s. s.monthly_cost_cents) db.servers)
      × (total_of c (overview month_start db).revenue_this_month_by_currency
          ≡ sum_of
              (λ p. (is_paid p.status && since month_start p.paid_at) && str_eq p.currency c)
              (λ p. p.amount_cents)
              db.payments)
unfolding overview row_of
overview-total_of month_start db c = (
  total_of-rows (λ (s : Server). s.cost_currency) (λ s. s.monthly_cost_cents) c
        (by_renewal db.servers)
      ∙ sum_of-by_renewal (λ s. str_eq s.cost_currency c) (λ s. s.monthly_cost_cents) db.servers,
  total_of-rows (λ (p : Payment). p.currency) (λ p. p.amount_cents) c
        (filter (λ p. is_paid p.status && since month_start p.paid_at) db.payments)
      ∙ sum_of-filter (λ p. str_eq p.currency c)
          (λ p. is_paid p.status && since month_start p.paid_at) (λ p. p.amount_cents) db.payments,
)
