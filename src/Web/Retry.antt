-- ===== src/Web/Retry.antt =====
-- What becomes of a call that the panel answers with 401.
use fredoomeaxima.Common.{◌≡◌, refl, Bool, true, false, none, some, ◌==◌}
use fredoomeaxima.Text.{Text}
use fredoomeaxima.Web.{
  Tokens, set, clear, Response, is_ok, Network, done, Browser, present, bearer, resume, raw_fetch,
  store_tokens, refresh_with, try_refresh, again_if, retry, value_of, api,
}

module _ {Call Body World : Type 0} (net : Network Call Body World) (call : Call)
    (raw_response : Bool) (b : Browser World) (first answer : Response Body) (r : Text)
    (w w' : World)
    (asked : net.fetch
        (record { call = call; authorization = bearer (present b.store.access) })
        b.world
      ≡ (some first, w))
    (expired : first.status ≡ 401) (kept : present b.store.refresh ≡ some r)
    (refreshed : net.fetch (record { call = net.refresh_call r; authorization = none }) w
      ≡ (some answer, w')) where
  abbrev waiting : Browser World
  waiting = record { store = b.store; world = w }

  first_try : raw_fetch net call true b ≡ (done first, waiting)
  unfolding raw_fetch
  first_try = rw asked refl

  unauthorized : (first.status == 401) ≡ true
  unauthorized = rw expired refl

  refresh_try :
      raw_fetch net (net.refresh_call r) false waiting
      ≡ (done answer, record { store = b.store; world = w' })
  unfolding raw_fetch
  refresh_try = rw refreshed refl

  refresh_refused :
      is_ok answer ≡ false
      → try_refresh net waiting ≡ (done false, record { store = clear; world = w' })
  unfolding try_refresh refresh_with store_tokens
  refresh_refused refused = rw (kept, refresh_with) (rw (refresh_try, resume) (rw refused refl))

  refresh_granted :
      (tokens : Tokens)
      → is_ok answer ≡ true
      → net.tokens answer.body ≡ some tokens
      → try_refresh net waiting ≡ (done true, record { store = set tokens; world = w' })
  unfolding try_refresh refresh_with store_tokens
  refresh_granted tokens granted read =
      rw (kept, refresh_with) (rw (refresh_try, resume) (rw granted (rw read refl)))

  -- Where a call is answered with 401 and new tokens are refused for the stored refresh token, both
  -- stored tokens are forgotten, and the call's result is what its first answer says.
  pub api_signs_out :
      is_ok answer ≡ false
      → api net call true raw_response b
        ≡ (value_of net raw_response first, record { store = clear; world = w' })
  unfolding api retry again_if
  api_signs_out refused =
      rw (first_try, resume) (rw (unauthorized, retry) (rw (refresh_refused refused, resume) refl))

  second_try :
      (tokens : Tokens) (second : Response Body) (w'' : World)
      → net.fetch
          (record { call = call; authorization = bearer (present (some tokens.access_token)) })
          w'
        ≡ (some second, w'')
      → raw_fetch net call true (record { store = set tokens; world = w' })
        ≡ (done second, record { store = set tokens; world = w'' })
  unfolding raw_fetch
  second_try tokens second w'' asked_again = rw asked_again refl

  -- Where a call is answered with 401 and new tokens are granted for the stored refresh token, these
  -- are stored, and the call is made again with the new access token: its result is what the second
  -- answer says, and nothing more is sent.
  pub api_renews :
      (tokens : Tokens) (second : Response Body) (w'' : World)
      → is_ok answer ≡ true
      → net.tokens answer.body ≡ some tokens
      → net.fetch
          (record { call = call; authorization = bearer (present (some tokens.access_token)) })
          w'
        ≡ (some second, w'')
      → api net call true raw_response b
        ≡ (value_of net raw_response second, record { store = set tokens; world = w'' })
  unfolding api retry again_if
  api_renews tokens second w'' granted read asked_again =
      rw (first_try, resume)
        (rw (unauthorized, retry)
          (rw (refresh_granted tokens granted read, resume)
            (rw (second_try tokens second w'' asked_again) refl)))
