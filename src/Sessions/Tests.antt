-- ===== src/Sessions/Tests.antt =====
-- Runs of the session calls on Ada's account.
use fredoomeaxima.Common.{
  arith, ◌≡◌, refl, String, true, false, not, ◌&&◌, List, take, [], ◌∷◌, ◌==◌, any, find,
}
use fredoomeaxima.Exec.{ok, err, unauthorized, forbidden}
use fredoomeaxima.Database.{Db, UserStatus}
use fredoomeaxima.Database.Tables.{update_where}
use fredoomeaxima.Database.Samples.{ada, bob}
use fredoomeaxima.Auth.{
  issue_tokens, register, login, refresh, logout, create_token, create_user, usable, admitted,
  is_blocked, revoke_all_for_user,
}
use fredoomeaxima.Users.{set_status, revoke_if}
use fredoomeaxima.Sessions.{Call, Reaches}
use fredoomeaxima.Sessions.Indexed.{after_all}
use fredoomeaxima.Sessions.Registry.{Entry, move, moves, realm_of}
use fredoomeaxima.Sessions.Refinement.{after_all-moves}
use fredoomeaxima.Sessions.Samples.{toy, draw_of, ada_token, open_db, ada_rotated}
use fredoomeaxima.Sessions.Reuse.{refresh_once}
use fredoomeaxima.Sessions.Blocking.{blocked_shut_out}

register_test :
    (register toy (draw_of 3) 100 "new@example.com" 5 open_db).0
    ≡ ok (record { access_token = 3; refresh_token = 33; expires_in = 900 })
unfolding register any find create_user issue_tokens create_token
register_test = refl

login_test :
    (login toy (draw_of 3) 100 "ada@example.com" 12 open_db).0
    ≡ err (unauthorized "Invalid credentials")
unfolding login find is_blocked
login_test = refl

refresh_test :
    refresh toy (draw_of 5) 100 11 open_db
    ≡ (ok (record { access_token = 1; refresh_token = 51; expires_in = 900 }), ada_rotated)
unfolding refresh find usable admitted is_blocked update_where issue_tokens create_token any
refresh_test = refl

-- The stolen copy of the token, used after the owner refreshed and signed out.
refresh_once_example :
    (message : String) × (refresh toy (draw_of 6) 200 11 (logout toy 51 ada_rotated).1
      ≡ (err (unauthorized message), (logout toy 51 ada_rotated).1))
unfolding refresh find usable admitted is_blocked update_where issue_tokens create_token any
refresh_once_example =
    refresh_once {Allowed = λ call. Unit} toy (draw_of 5) (draw_of 6) 100 200 11 open_db
      (logout toy 51 ada_rotated).1
      (record { access_token = 1; refresh_token = 51; expires_in = 900 }) (refl, tt) refl
      (Reaches.there ada_rotated _ (Call.logs_out 51) tt (Reaches.here _))

abbrev shut_db : Db
shut_db = record open_db {
  users = record ada { status = UserStatus.blocked } ∷ bob ∷ [];
  refresh_tokens = record ada_token { revoked = true } ∷ [];
}

-- Ada is blocked, then Bob is blocked and set active again.
blocked_shut_out_example :
    (any (λ t. t.user_id == 1 && not t.revoked) shut_db.refresh_tokens ≡ false)
    × (login toy (draw_of 6) 200 "ada@example.com" 11 shut_db
        ≡ (err (forbidden "Account is blocked"), shut_db))
    × (message : String) × (refresh toy (draw_of 6) 200 11 shut_db
        ≡ (err (unauthorized message), shut_db))
unfolding set_status find update_where revoke_if is_blocked revoke_all_for_user
blocked_shut_out_example =
    blocked_shut_out 1 toy open_db shut_db (draw_of 6) 200 "ada@example.com" 11 11
      (record ada { status = UserStatus.blocked }) refl
      (Reaches.there shut_db _ (Call.sets_status 2 UserStatus.blocked) (λ own. refl)
        (Reaches.there _ _ (Call.sets_status 2 UserStatus.active) (λ own. absurd (ground arith))
          (Reaches.here _)))
      refl refl refl

-- Ada refreshes, signs in, signs out with the refreshed token, and is blocked.
abbrev ada_calls : List Call
ada_calls =
    Call.refreshes (draw_of 5) 100 11
    ∷ Call.logs_in (draw_of 6) 100 "ada@example.com" 11
    ∷ Call.logs_out 51
    ∷ Call.sets_status 1 UserStatus.blocked
    ∷ []

after_all-moves_example :
    realm_of (after_all toy ada_calls open_db) ≡ moves toy ada_calls (realm_of open_db)
unfolding refresh find usable admitted is_blocked update_where issue_tokens create_token any
after_all-moves_example =
    after_all-moves toy ada_calls open_db (record { hashes = (refl, tt); ids = (refl, tt) })
      (refl, (refl, (tt, (tt, tt))))

-- The token of the sign-in is Ada's until the block.
signed_in : (moves toy (take 3 ada_calls) (realm_of open_db)).1 1061 ≡ Entry.opened 1 3600100
unfolding moves move find is_blocked admitted
signed_in = refl
