-- ===== src/AdminBilling/Tests.antt =====
-- The overview of one server and one payment.
use fredoomeaxima.Common.{◌≡◌, [], ◌∷◌, some}
use fredoomeaxima.Database.{Db, PaymentStatus, ServerStatus}
use fredoomeaxima.Database.Samples.{sample, helsinki, invoice}
use fredoomeaxima.AdminBilling.{overview, is_paid}
use fredoomeaxima.AdminBilling.Totals.{total_of, sum_of, overview-total_of}

abbrev paid_db : Db
paid_db = record (sample PaymentStatus.succeeded (helsinki ServerStatus.active)) {
  payments =
      record (invoice PaymentStatus.succeeded) { paid_at = some 5000 }
      ∷ record (invoice PaymentStatus.succeeded) { paid_at = some 900 }
      ∷ invoice PaymentStatus.pending
      ∷ [];
}

overview-total_of_example :
    (total_of "RUB" (overview 1000 paid_db).monthly_cost_by_currency ≡ 0)
    × (total_of "RUB" (overview 1000 paid_db).revenue_this_month_by_currency ≡ 49900)
unfolding sum_of is_paid
overview-total_of_example = overview-total_of 1000 paid_db "RUB"
