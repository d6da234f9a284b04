-- ===== src/Web/Tests.antt =====
-- Ada's browser after her access token has expired.
use fredoomeaxima.Common.{
  ℕ, ◌+◌, ◌≡◌, refl, true, false, none, some, ◌==◌, find, any, if◌then◌else◌,
}
use fredoomeaxima.Text.{codes, text_eq}
use fredoomeaxima.Database.{Db}
use fredoomeaxima.Database.Tables.{update_where}
use fredoomeaxima.Auth.{
  AuthTokens, refresh, usable, admitted, is_blocked, issue_tokens, create_token,
}
use fredoomeaxima.Sessions.Samples.{toy, draw_of, open_db, ada_rotated}
use fredoomeaxima.Api.{Env, starts_with, drop}
use fredoomeaxima.Api.Samples.{env}
use fredoomeaxima.Api.Guards.{bearer_of}
use fredoomeaxima.Api.Users.{UsersCall, endpoint as users_endpoint}
use fredoomeaxima.Api.Router.{Call, serve}
use fredoomeaxima.Web.{Network, Message, Browser, set, clear, value_of, api}
use fredoomeaxima.Web.Retry.{api_signs_out}
use fredoomeaxima.Web.Recovery.{Spelling, panel, tokens_of, response_of, client_recovers}

abbrev at_noon : Env ℕ
at_noon = record env { now = 100; credentials = toy; draw = draw_of 5 }

abbrev spelling : Spelling
spelling = record { print = λ n. if n == 1 then codes "ada" else codes "other"; number = λ t. 11 }

abbrev granted : AuthTokens
granted = record { access_token = 1; refresh_token = 51; expires_in = 900 }

abbrev browser : Browser Db
browser = record {
  store = record { access = some (codes "old"); refresh = some (codes "r") };
  world = open_db;
}

abbrev overview : Call ℕ
overview = Call.users UsersCall.my_overview

client_recovers_example :
    let served = serve at_noon (some (codes "Bearer ada")) overview ada_rotated in
    api (panel spelling at_noon) overview true false browser ≡ (
      value_of (panel spelling at_noon) false (response_of served.0),
      record { store = set (tokens_of spelling granted); world = served.1 },
    )
unfolding users_endpoint bearer_of starts_with drop text_eq refresh find usable admitted is_blocked
    update_where issue_tokens create_token any
client_recovers_example =
    client_recovers spelling at_noon overview browser (codes "r") granted refl refl refl refl refl

-- A panel that refuses everything, and counts the requests.
abbrev refusing : Network ℕ ℕ ℕ
refusing = record {
  fetch = λ request requests. (some (record { status = 401; body = 0 }), requests + 1);
  refresh_call = λ t. 0;
  tokens = λ body. none;
  message = λ body. some Message.missing;
}

api_signs_out_example : api refusing 7 true false (record { store = browser.store; world = 0 }) ≡ (
  value_of refusing false (record { status = 401; body = 0 }),
  record { store = clear; world = 2 },
)
api_signs_out_example =
    api_signs_out refusing 7 false (record { store = browser.store; world = 0 })
      (record { status = 401; body = 0 }) (record { status = 401; body = 0 }) (codes "r") 1 2 refl
      refl refl refl refl
