-- ===== src/Subscriptions/Frame.antt =====
-- What granting and expiring access keeps.
use fredoomeaxima.Common.{ℕ, Option, none, some}
use fredoomeaxima.Database.{Db, Subscription}
use fredoomeaxima.Subscriptions.{Grant, start, extend, grant_from, grant_or_extend, expire_due}
use fredoomeaxima.Exec.Keeps.{Keeps, keeps_rules}
use fredoomeaxima.Database.Frame.{Frame}

module _ (P : Db → Type 0) (frame : Frame P) where
  grant_from-Keeps :
      (now new_id : ℕ) (g : Grant) (days : ℕ) (active : Option Subscription)
      → Keeps P (grant_from now new_id g days active)
  unfolding grant_from start extend
  grant_from-Keeps now new_id g days none = search (keeps_rules, frame.subscriptions) depth 12
  grant_from-Keeps now new_id g days (some s) = search (keeps_rules, frame.subscriptions) depth 12

  pub grant_or_extend-Keeps : (now new_id : ℕ) (g : Grant) → Keeps P (grant_or_extend now new_id g)
  unfolding grant_or_extend
  grant_or_extend-Keeps now new_id g = search (keeps_rules, grant_from-Keeps) depth 12

  pub expire_due-Keeps : (now : ℕ) → Keeps P (expire_due now)
  unfolding expire_due
  expire_due-Keeps now = search (keeps_rules, frame.subscriptions) depth 12
