-- ===== src/Subscriptions/Isolation.antt =====
-- `grantOrExtend` seen from the other users and from the payments.
use fredoomeaxima.Common.{
  ℕ, ◌+◌, ◌*◌, ◌≡◌, ◌≢◌, refl, ap, true, not, ◌&&◌, ◌||◌, List, [], ◌∷◌, Option, none, some, arith,
  ◌==◌, find, filter, all, Option-cases, inl, inr,
}
use fredoomeaxima.Exec.{or_throw}
use fredoomeaxima.Database.{Db, Subscription}
use fredoomeaxima.Database.Tables.{update_where, greatest, HasUnique, unique_rows}
use fredoomeaxima.Subscriptions.{
  day, is_running, get_active, Grant, days_of, extend, start, grant_from, grant_or_extend,
}
use fredoomeaxima.Subscriptions.Running.{extended, runs_first-running, runs_first-any}

filter_others :
    (now u v id e : ℕ) (g : Grant) (rs : List Subscription)
    → u ≢ v
    → all (λ r. not (r.id == id) || r.user_id == u) rs ≡ true
    → filter (is_running now v) (update_where (λ r. r.id == id) (extended e g) rs)
      ≡ filter (is_running now v) rs
unfolding filter update_where all is_running
filter_others now u v id e g [] ne h = refl
filter_others now u v id e g (r ∷ rs) ne h = ground (arith, filter_others now u v id e g rs ne)

grant_from-other :
    (now new_id v : ℕ) (g : Grant) (days : ℕ) (db : Db) (o : Option Subscription)
    → HasUnique (λ s. s.id) db.subscriptions
    → g.user_id ≢ v
    → get_active now g.user_id db ≡ o
    → (t : ℕ) → get_active t v (grant_from now new_id g days o db).1 ≡ get_active t v db
unfolding grant_from extend start get_active
grant_from-other now new_id v g days db none q ne e t = unfold filter is_running in ground arith
grant_from-other now new_id v g days db (some a) q ne e t =
    let runs = runs_first-running now g.user_id db.subscriptions a e in
    let owned =
      runs_first-any now g.user_id (λ r. r.id == a.id && r.user_id == g.user_id) db.subscriptions a
        e (unfold is_running in ground arith) in
    let owners =
      unique_rows (λ s. s.id) a.id (λ r. r.user_id == g.user_id) db.subscriptions q owned in
    ap (greatest (λ s. s.ends_at))
      (filter_others t g.user_id v a.id (a.ends_at + days * day) g db.subscriptions ne owners)

-- With unique identifiers, a grant to one user changes no other user's active subscription, at
-- any time.
pub grant_or_extend-other :
    (now new_id v : ℕ) (g : Grant) (db : Db)
    → HasUnique (λ s. s.id) db.subscriptions
    → g.user_id ≢ v
    → (t : ℕ) → get_active t v (grant_or_extend now new_id g db).1 ≡ get_active t v db
unfolding grant_or_extend
grant_or_extend-other now new_id v g db q ne t =
    elim (Option-cases (find (λ t. t.id == g.tariff_id) db.tariffs)) [
      | inl e ↦ rw (e, or_throw) refl
      | inr (tariff, e) ↦
          rw (e, or_throw)
            (elim (Option-cases (find (λ u. u.id == g.user_id) db.users)) [
              | inl f ↦ rw (f, or_throw) refl
              | inr (owner, f) ↦
                  rw (f, or_throw)
                    (grant_from-other now new_id v g (days_of g.duration_days tariff.duration_days)
                      db (get_active now g.user_id db) q ne refl t)
            ])
    ]

grant_from-payments :
    (now new_id : ℕ) (g : Grant) (days : ℕ) (o : Option Subscription) (db : Db)
    → (grant_from now new_id g days o db).1.payments ≡ db.payments
unfolding grant_from extend start
grant_from-payments now new_id g days none db = refl
grant_from-payments now new_id g days (some a) db = refl

-- A grant writes subscriptions only.
pub grant_or_extend-payments :
    (now new_id : ℕ) (g : Grant) (db : Db)
    → (grant_or_extend now new_id g db).1.payments ≡ db.payments
unfolding grant_or_extend
grant_or_extend-payments now new_id g db =
    elim (Option-cases (find (λ t. t.id == g.tariff_id) db.tariffs)) [
      | inl e ↦ rw (e, or_throw) refl
      | inr (t, e) ↦
          rw (e, or_throw)
            (elim (Option-cases (find (λ u. u.id == g.user_id) db.users)) [
              | inl f ↦ rw (f, or_throw) refl
              | inr (u, f) ↦
                  rw (f, or_throw)
                    (grant_from-payments now new_id g (days_of g.duration_days t.duration_days)
                      (get_active now g.user_id db) db)
            ])
    ]
