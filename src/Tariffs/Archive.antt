-- ===== src/Tariffs/Archive.antt =====
-- Selling a tariff that was archived.
use fredoomeaxima.Common.{
  ℕ, ◌≡◌, refl, ap, sym, ◌∙◌, String, Bool, true, false, not, ◌&&◌, Option, none, some, arith, ◌==◌,
  ==_iff, find, find-holds, if◌then◌else◌,
}
use fredoomeaxima.Exec.{ok, err, not_found}
use fredoomeaxima.Exec.Steps.{or_throw_ok}
use fredoomeaxima.Database.{Db, Tariff}
use fredoomeaxima.Database.Tables.{update_where, find-update_where, map_option}
use fredoomeaxima.Payments.{PaymentProvider, checkout}
use fredoomeaxima.Payments.Checkout.{checkout_refused}
use fredoomeaxima.Tariffs.{get, archive}

shown : {A : Type 0} {a b : A} → some a ≡ some b → a ≡ b
shown h = cc h

off_sale :
    (active public archived : Bool) → archived ≡ true → (active && public && not archived) ≡ false
off_sale active public archived h = ground arith

abbrev archived : Tariff → Tariff
archived t = record t { is_archived = true }

changed-archived :
    (id : ℕ) (f : Tariff → Tariff) (found : Option Tariff) (t : Tariff)
    → ((u : Tariff) → found ≡ some u → u.id ≡ id)
    → ((u : Tariff) → found ≡ some u → (f u).is_archived ≡ true)
    → map_option (λ r. if r.id == id then f r else r) found ≡ some t
    → t.is_archived ≡ true
changed-archived id f none t same off h = absurd (ground arith)
changed-archived id f (some u) t same off h =
    let hit : (u.id == id) ≡ true = (==_iff _ _).1 (same u refl) in
    let now : f u ≡ t = shown (rw hit at h) in ap (λ r. r.is_archived) (sym now) ∙ off u refl

-- Archiving an existing tariff takes it off sale: no checkout of it succeeds any more or writes
-- anything. Subscriptions and payments stay as they were.
pub archive_ends_sales :
    {Body : Type 0} (provider : PaymentProvider Body) (web_url : String)
    (id now payment_id new_id user_id : ℕ) (db : Db)
    → (archive id db).0 ≡ ok tt
    → let after = (archive id db).1 in
      (checkout provider web_url now payment_id new_id user_id id after
        ≡ (err (not_found "Tariff not available"), after))
      × (after.subscriptions ≡ db.subscriptions)
      × (after.payments ≡ db.payments)
unfolding archive get
archive_ends_sales provider web_url id now payment_id new_id user_id db h =
    let found = or_throw_ok _ (find (λ t. t.id == id) db.tariffs) _ db tt h in
    let after = record db { tariffs = update_where (λ t. t.id == id) archived db.tariffs } in
    rw found.3 (
      checkout_refused provider web_url now payment_id new_id user_id id after (λ t e.
          off_sale t.is_active t.is_public t.is_archived (
            changed-archived id archived (find (λ t. t.id == id) db.tariffs) t
              (λ u there. (==_iff _ _).0 (find-holds (λ t. t.id == id) db.tariffs u there))
              (λ u there. refl)
              (sym (
                  find-update_where (λ t. t.id == id) (λ t. t.id == id) archived db.tariffs
                    (λ r. refl))
                ∙ e))),
      refl,
      refl,
    )
