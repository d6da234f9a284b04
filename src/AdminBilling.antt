-- ===== src/AdminBilling.antt =====
-- apps/api/src/admin-billing/admin-billing.service.ts: monthly costs and revenue by currency. The
-- start of the month is an argument.
pub mod Totals
mod Tests
use text.Mathlib.Text.{◌==◌ as str_eq}
use fredoomeaxima.Common.{
  ℕ, ◌+◌, String, Bool, true, false, ◌&&◌, List, [], ◌∷◌, map, Option, none, some, leb, ◌==◌, find,
  filter, if◌then◌else◌,
}
use fredoomeaxima.Database.{Db, Server, ServerStatus, Country, Payment, PaymentStatus}

-- `totals[currency] = (totals[currency] ?? 0) + amount`, on an object as an association list.
add_to : String → ℕ → List (String × ℕ) → List (String × ℕ)
add_to currency amount [] = (currency, 0 + amount) ∷ []
add_to currency amount ((key, total) ∷ rest) =
    let later = add_to currency amount rest in
    if str_eq key currency then (key, total + amount) ∷ rest else (key, total) ∷ later

-- The two loops that sum by currency.
sum_from : List (String × ℕ) → List (String × ℕ) → List (String × ℕ)
unfolding add_to
sum_from totals [] = totals
sum_from totals ((currency, amount) ∷ rows) = sum_from (add_to currency amount totals) rows

pub sum_by_currency : List (String × ℕ) → List (String × ℕ)
unfolding sum_from
sum_by_currency rows = sum_from [] rows

pub is_paid : PaymentStatus → Bool
is_paid PaymentStatus.succeeded = true
is_paid PaymentStatus.manual = true
is_paid PaymentStatus.pending = false
is_paid PaymentStatus.failed = false

abbrev pub since : ℕ → Option ℕ → Bool
since start none = false
since start (some at) = leb start at

-- Ascending, with the servers that have no date last, as the database orders them.
is_before : Option ℕ → Option ℕ → Bool
is_before none none = true
is_before none (some b) = false
is_before (some a) none = true
is_before (some a) (some b) = leb a b

insert_server : Server → List Server → List Server
unfolding is_before
insert_server s [] = s ∷ []
insert_server s (t ∷ ts) =
    let rest = insert_server s ts in
    if is_before s.next_renewal_at t.next_renewal_at then s ∷ t ∷ ts else t ∷ rest

by_renewal : List Server → List Server
unfolding insert_server
by_renewal [] = []
by_renewal (s ∷ ss) = insert_server s (by_renewal ss)

pub record ServerCost : Type 0 where
  pub id : ℕ
  pub name : String
  pub country : Option String
  pub provider : Option String
  pub monthly_cost_cents : ℕ
  pub cost_currency : String
  pub next_renewal_at : Option ℕ
  pub status : ServerStatus

name_of : Option Country → Option String
name_of none = none
name_of (some c) = some c.name

cost_of : Db → Server → ServerCost
unfolding name_of
cost_of db s = record {
  id = s.id;
  name = s.name;
  country = name_of (find (λ c. c.id == s.country_id) db.countries);
  provider = s.provider;
  monthly_cost_cents = s.monthly_cost_cents;
  cost_currency = s.cost_currency;
  next_renewal_at = s.next_renewal_at;
  status = s.status;
}

pub record Renewal : Type 0 where
  pub server_id : ℕ
  pub name : String
  pub country : Option String
  pub provider : Option String
  pub monthly_cost_cents : ℕ
  pub cost_currency : String
  pub next_renewal_at : Option ℕ

renewal_of : Db → Server → Renewal
unfolding name_of
renewal_of db s = record {
  server_id = s.id;
  name = s.name;
  country = name_of (find (λ c. c.id == s.country_id) db.countries);
  provider = s.provider;
  monthly_cost_cents = s.monthly_cost_cents;
  cost_currency = s.cost_currency;
  next_renewal_at = s.next_renewal_at;
}

has_renewal : Server → Bool
has_renewal s = elim s.next_renewal_at [ none ↦ false | some at ↦ true ]

pub record Overview : Type 0 where
  pub servers : List ServerCost
  pub monthly_cost_by_currency : List (String × ℕ)
  pub revenue_this_month_by_currency : List (String × ℕ)
  pub upcoming_renewals : List Renewal

pub overview : (month_start : ℕ) → Db → Overview
unfolding is_paid by_renewal cost_of renewal_of has_renewal
overview month_start db =
    let servers = by_renewal db.servers in
    record {
      servers = map (cost_of db) servers;
      monthly_cost_by_currency =
          sum_by_currency (map (λ (s : Server). (s.cost_currency, s.monthly_cost_cents)) servers);
      revenue_this_month_by_currency = sum_by_currency (
          map (λ (p : Payment). (p.currency, p.amount_cents))
            (filter (λ p. is_paid p.status && since month_start p.paid_at) db.payments));
      upcoming_renewals = map (renewal_of db) (filter has_renewal servers);
    }
