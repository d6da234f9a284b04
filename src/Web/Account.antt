-- ===== src/Web/Account.antt =====
-- apps/web/lib/auth.tsx: the signed-in user of the browser's client. The state is the browser's with
-- what `me` shows; the replies' bodies are only passed on.
use fredoomeaxima.Common.{Bool, true, false, Option, none, some}
use fredoomeaxima.Text.{Text}
use fredoomeaxima.Web.{
  Tokens, set, clear, Network, Outcome, done, thrown, Failure, Browser, Value, raw, empty, json,
  present, api,
}

pub record AuthState (Body World : Type 0) : Type 0 where
  pub browser : Browser World
  pub me : Option (Value Body)
  pub loading : Bool

-- The calls that the provider makes.
pub record AuthCalls (Call : Type 0) : Type 0 where
  pub me_call : Call
  pub login_call : (email password : Text) → Call
  pub register_call : (email password : Text) → Call
  pub logout_call : (refresh_token : Text) → Call

module _ {Call Body World : Type 0} (net : Network Call Body World) (calls : AuthCalls Call) where
  shown : Outcome (Value Body) → Option (Value Body)
  shown (done v) = some v
  shown (thrown e) = none

  refresh_me_with : Option Text → AuthState Body World → AuthState Body World
  unfolding shown
  refresh_me_with none s = record s { me = none }
  refresh_me_with (some token) s =
      let (result, browser) = api net calls.me_call true false s.browser in
      record s { browser = browser; me = shown result }

  pub refresh_me : AuthState Body World → AuthState Body World
  unfolding refresh_me_with
  refresh_me s = refresh_me_with (present s.browser.store.access) s

  -- What the effect of the provider does when it is mounted.
  pub mount : AuthState Body World → AuthState Body World
  mount s = record (refresh_me s) { loading = false }

  pub handle_tokens : Tokens → AuthState Body World → AuthState Body World
  handle_tokens tokens s =
      refresh_me (record s { browser = record s.browser { store = set tokens } })

  tokens_of : Value Body → Option Tokens
  tokens_of (raw res) = none
  tokens_of empty = none
  tokens_of (json body) = net.tokens body

  -- The panel's replies to these calls carry tokens; what another reply would store is left out.
  accept : Option Tokens → AuthState Body World → AuthState Body World
  accept none s = s
  accept (some tokens) s = handle_tokens tokens s

  signed_in : Outcome (Value Body) → AuthState Body World → Option Failure × AuthState Body World
  unfolding accept tokens_of
  signed_in (thrown e) s = (some e, s)
  signed_in (done v) s = (none, accept (tokens_of v) s)

  sign_in : Call → AuthState Body World → Option Failure × AuthState Body World
  unfolding signed_in
  sign_in call s =
      let (result, browser) = api net call false false s.browser in
      signed_in result (record s { browser = browser })

  pub login : (email password : Text) → AuthState Body World → Option Failure × AuthState Body World
  unfolding sign_in
  login email password s = sign_in (calls.login_call email password) s

  pub register :
      (email password : Text) → AuthState Body World → Option Failure × AuthState Body World
  unfolding sign_in
  register email password s = sign_in (calls.register_call email password) s

  -- The request is not awaited and its failure is ignored; it does not touch the store.
  say_goodbye : Option Text → Browser World → Browser World
  say_goodbye none b = b
  say_goodbye (some refresh_token) b = (api net (calls.logout_call refresh_token) false false b).1

  pub logout : AuthState Body World → AuthState Body World
  unfolding say_goodbye
  logout s =
      let browser = say_goodbye (present s.browser.store.refresh) s.browser in
      record s { browser = record browser { store = clear }; me = none }
