-- ===== src/Users/Frame.antt =====
-- What changing the status of a user keeps.
use fredoomeaxima.Common.{ℕ, Bool, true, false}
use fredoomeaxima.Database.{Db, UserStatus}
use fredoomeaxima.Auth.{revoke_all_for_user}
use fredoomeaxima.Users.{get_card, revoke_if, set_status}
use fredoomeaxima.Exec.Keeps.{Keeps, keeps_rules}
use fredoomeaxima.Database.Frame.{Frame}

module _ (P : Db → Type 0) (frame : Frame P) where
  revoke_if-Keeps : (b : Bool) (user_id : ℕ) → Keeps P (revoke_if b user_id)
  unfolding revoke_if revoke_all_for_user
  revoke_if-Keeps true user_id = search (keeps_rules, frame.refresh_tokens) depth 12
  revoke_if-Keeps false user_id = search keeps_rules

  pub set_status-Keeps : (user_id : ℕ) (s : UserStatus) → Keeps P (set_status user_id s)
  unfolding set_status
  set_status-Keeps user_id s = search (keeps_rules, revoke_if-Keeps, frame.users) depth 12

  pub get_card-Keeps : (user_id : ℕ) → Keeps P (get_card user_id)
  unfolding get_card
  get_card-Keeps user_id = search keeps_rules depth 16
