-- ===== src/Subscriptions/Access.antt =====
-- `grantOrExtend` as the user sees it: the end and the tariff of the active subscription.
use fredoomeaxima.Common.{
  ℕ, ◌+◌, ◌*◌, ◌<◌, ◌≡◌, refl, true, Option, none, some, arith, ◌==◌, find, filter,
}
use fredoomeaxima.Exec.{ok, or_throw}
use fredoomeaxima.Database.{Db, User, Tariff, Subscription}
use fredoomeaxima.Database.Tables.{greater, greatest}
use fredoomeaxima.Subscriptions.{
  day, is_running, get_active, Grant, days_of, extend, start, grant_from, grant_or_extend,
}
use fredoomeaxima.Subscriptions.Running.{
  Leads, hits, runs_first-running, runs_first-any, runs_first-NoLater, extended-Leads,
}

-- The end of the active subscription, or `now` where there is none.
abbrev pub end_of : ℕ → Option Subscription → ℕ
end_of now none = now
end_of now (some s) = s.ends_at

abbrev pub access_end : ℕ → ℕ → Db → ℕ
access_end now user_id db = end_of now (get_active now user_id db)

-- The active subscription has the end and the tariff.
abbrev pub HasAccess : ℕ → ℕ → ℕ → ℕ → Db → Type 0
HasAccess now user_id e tariff_id db =
    (b : Subscription) × (get_active now user_id db ≡ some b)
    × (b.ends_at ≡ e)
    × (b.tariff_id ≡ tariff_id)

Leads-some :
    (e t : ℕ) (o : Option Subscription)
    → Leads e t true o
    → (b : Subscription) × (o ≡ some b) × (b.ends_at ≡ e) × (b.tariff_id ≡ t)
Leads-some e t none l = absurd l
Leads-some e t (some b) l = (b, refl, l.0, l.1)

grant_from_access :
    (now new_id : ℕ) (g : Grant) (days : ℕ) (db : Db) (o : Option Subscription)
    → 0 < days
    → get_active now g.user_id db ≡ o
    → HasAccess now g.user_id
        (end_of now o + days * day)
        g.tariff_id
        (grant_from now new_id g days o db).1
unfolding grant_from extend start get_active
grant_from_access now new_id g days db none h e =
    Leads-some _ _ _ (unfold greatest filter greater is_running in ground arith)
grant_from_access now new_id g days db (some a) h e =
    let end = a.ends_at + days * day in
    let runs = runs_first-running now g.user_id db.subscriptions a e in
    let upper = runs_first-NoLater now g.user_id a.ends_at db.subscriptions (rw e (omega arith)) in
    let lead =
      extended-Leads now g.user_id a.id end a.ends_at g (omega arith) db.subscriptions upper in
    let hit =
      runs_first-any now g.user_id (hits now g.user_id a.id end a.ends_at g (omega arith))
        db.subscriptions a e (unfold is_running in ground arith) in
    Leads-some _ _ _ (rw hit at lead)

grant_from_ok :
    (now new_id : ℕ) (g : Grant) (days : ℕ) (db : Db) (o : Option Subscription)
    → (grant_from now new_id g days o db).0 ≡ ok tt
unfolding grant_from
grant_from_ok now new_id g days db none = refl
grant_from_ok now new_id g days db (some a) = refl

-- With the tariff and the user in place, a grant is the write at its end.
pub grant_or_extend_lem :
    (now new_id : ℕ) (g : Grant) (db : Db) (t : Tariff) (o : User)
    → find (λ t. t.id == g.tariff_id) db.tariffs ≡ some t
    → find (λ u. u.id == g.user_id) db.users ≡ some o
    → grant_or_extend now new_id g db
      ≡ grant_from now new_id g
          (days_of g.duration_days t.duration_days)
          (get_active now g.user_id db)
          db
unfolding grant_or_extend
grant_or_extend_lem now new_id g db t o known owned =
    rw (known, or_throw) (rw (owned, or_throw) refl)

-- A grant to a known user under a known tariff succeeds. Afterwards the user's active subscription
-- is under the tariff, and ends the granted days after the end of the one that was active, or
-- after `now` where none was.
pub grant_or_extend_access :
    (now new_id : ℕ) (g : Grant) (db : Db) (t : Tariff) (o : User)
    → find (λ t. t.id == g.tariff_id) db.tariffs ≡ some t
    → find (λ u. u.id == g.user_id) db.users ≡ some o
    → 0 < days_of g.duration_days t.duration_days
    → ((grant_or_extend now new_id g db).0 ≡ ok tt)
      × HasAccess now g.user_id
          (access_end now g.user_id db + days_of g.duration_days t.duration_days * day)
          g.tariff_id
          (grant_or_extend now new_id g db).1
grant_or_extend_access now new_id g db t o known owned h =
    let days = days_of g.duration_days t.duration_days in
    rw (grant_or_extend_lem now new_id g db t o known owned) (
      grant_from_ok now new_id g days db (get_active now g.user_id db),
      grant_from_access now new_id g days db (get_active now g.user_id db) h refl,
    )
