-- ===== src/Subscriptions/Running.antt =====
-- The running subscription that ends last, before and after one row of the table is extended.
use fredoomeaxima.Common.{
  ℕ, ◌≤◌, ◌<◌, ◌≡◌, refl, Bool, true, false, ◌&&◌, List, [], ◌∷◌, Option, none, some, arith, ◌==◌,
  filter, any, Bool-cases, inl, inr,
}
use fredoomeaxima.Database.{Subscription}
use fredoomeaxima.Database.Tables.{update_where, greater, greatest}
use fredoomeaxima.Subscriptions.{is_running, Grant}

abbrev pub runs_first : ℕ → ℕ → List Subscription → Option Subscription
runs_first now u rs = greatest (λ s. s.ends_at) (filter (is_running now u) rs)

abbrev pub extended : ℕ → Grant → Subscription → Subscription
extended newEnd g s = record s { ends_at = newEnd; tariff_id = g.tariff_id; source = g.source }

pub runs_first-running :
    (now u : ℕ) (rs : List Subscription) (a : Subscription)
    → runs_first now u rs ≡ some a
    → is_running now u a ≡ true
unfolding greatest filter
runs_first-running now u [] a h = ground arith
runs_first-running now u (r ∷ rs) a h = ground (arith, runs_first-running now u rs a)

-- The subscription found is in the table: a test that holds of it holds of some row.
pub runs_first-any :
    (now u : ℕ) (p : Subscription → Bool) (rs : List Subscription) (a : Subscription)
    → runs_first now u rs ≡ some a
    → p a ≡ true
    → any p rs ≡ true
unfolding greatest filter any
runs_first-any now u p [] a h pa = ground arith
runs_first-any now u p (r ∷ rs) a h pa = ground (arith, runs_first-any now u p rs a)

abbrev pub AtMost : ℕ → Option Subscription → Type 0
AtMost e none = Unit {0}
AtMost e (some b) = b.ends_at ≤ e

AtMost-greater :
    (e : ℕ) (r : Subscription) (o : Option Subscription)
    → AtMost e (greater (λ s. s.ends_at) r o)
    → (r.ends_at ≤ e) × AtMost e o
unfolding greater
AtMost-greater e r none h = (h, tt)
AtMost-greater e r (some q) h = ground arith

-- No running subscription ends after `e`.
abbrev pub NoLater : ℕ → ℕ → ℕ → List Subscription → Type 0
NoLater now u e [] = Unit {0}
NoLater now u e (r ∷ rs) = (is_running now u r ≡ true → r.ends_at ≤ e) × NoLater now u e rs

pub runs_first-NoLater :
    (now u e : ℕ) (rs : List Subscription) → AtMost e (runs_first now u rs) → NoLater now u e rs
unfolding greatest filter
runs_first-NoLater now u e [] h = tt
runs_first-NoLater now u e (r ∷ rs) h = elim (Bool-cases (is_running now u r)) [
  | inl runs ↦
      let both = AtMost-greater e r (runs_first now u rs) (rw runs at h) in
      (λ _. both.0, runs_first-NoLater now u e rs both.1)
  | inr stopped ↦ (λ runs. cc, runs_first-NoLater now u e rs (rw stopped at h))
]

-- What leads the running rows: with `hit`, a row that ends at `e` under tariff `t`; otherwise
-- nothing that ends as late.
abbrev pub Leads : ℕ → ℕ → Bool → Option Subscription → Type 0
Leads e t true none = ⊥
Leads e t true (some b) = (b.ends_at ≡ e) × (b.tariff_id ≡ t)
Leads e t false none = Unit {0}
Leads e t false (some b) = b.ends_at < e

Leads-greater_hit :
    (e t : ℕ) (hit : Bool) (r : Subscription) (o : Option Subscription)
    → r.ends_at ≡ e
    → r.tariff_id ≡ t
    → Leads e t hit o
    → Leads e t true (greater (λ s. s.ends_at) r o)
unfolding greater
Leads-greater_hit e t hit r none h k l = (h, k)
Leads-greater_hit e t true r (some q) h k l = ground arith
Leads-greater_hit e t false r (some q) h k l = ground arith

Leads-greater_miss :
    (e t : ℕ) (hit : Bool) (r : Subscription) (o : Option Subscription)
    → r.ends_at < e
    → Leads e t hit o
    → Leads e t hit (greater (λ s. s.ends_at) r o)
unfolding greater
Leads-greater_miss e t true r none h l = absurd l
Leads-greater_miss e t false r none h l = h
Leads-greater_miss e t true r (some q) h l = ground arith
Leads-greater_miss e t false r (some q) h l = ground arith

module _ (now u id e m : ℕ) (g : Grant) (later : m < e) where
  abbrev pub hits : Subscription → Bool
  hits r = r.id == id && is_running now u (extended e g r)

  pub extended-Leads :
      (rs : List Subscription)
      → NoLater now u m rs
      → Leads e g.tariff_id
          (any hits rs)
          (runs_first now u (update_where (λ r. r.id == id) (extended e g) rs))
  unfolding greatest filter update_where any
  extended-Leads [] n = tt
  extended-Leads (r ∷ rs) n =
      let rest = extended-Leads rs n.1 in
      let after = runs_first now u (update_where (λ r. r.id == id) (extended e g) rs) in
      elim (Bool-cases (r.id == id)) [
        | inl same ↦ elim (Bool-cases (is_running now u (extended e g r))) [
          | inl runs ↦
              rw (same, runs)
                (Leads-greater_hit e g.tariff_id (any hits rs) (extended e g r) after refl refl
                  rest)
          | inr stopped ↦ rw (same, stopped) rest
        ]
        | inr other ↦ elim (Bool-cases (is_running now u r)) [
          | inl runs ↦
              rw (other, runs)
                (Leads-greater_miss e g.tariff_id (any hits rs) r after (omega (arith, n.0 runs))
                  rest)
          | inr stopped ↦ rw (other, stopped) rest
        ]
      ]
