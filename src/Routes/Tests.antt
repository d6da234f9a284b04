-- ===== src/Routes/Tests.antt =====
-- Resolutions of a group whose domain first answers with a public and a private address.
use fredoomeaxima.Common.{◌≡◌, refl, true, false, [], ◌∷◌, none, some, ltb, length}
use fredoomeaxima.Text.{codes}
use fredoomeaxima.Database.{Db, RouteGroup, RouteListVersion}
use fredoomeaxima.Database.Samples.{empty_db}
use fredoomeaxima.Database.Tables.{greatest}
use fredoomeaxima.Routes.{Dns, resolve_and_publish, get_current_version, entries_of}
use fredoomeaxima.Routes.Steps.{Step, steps}
use fredoomeaxima.Routes.Publishing.{resolve_and_publish-IsOutcome, steps_nonempty, IsOutcome}

abbrev chat : RouteGroup
chat = record {
  id = 1;
  key = "telegram";
  name = "Telegram";
  domains = "web.telegram.org" ∷ [];
  is_enabled = true;
}

abbrev route_db : Db
route_db = record empty_db { route_groups = chat ∷ [] }

abbrev answering : Dns
answering domain = some (codes "149.154.167.99" ∷ codes "10.0.0.1" ∷ [])

abbrev silent : Dns
silent domain = none

abbrev poisoned : Dns
poisoned domain = some (codes "127.0.0.1" ∷ [])

abbrev published : RouteListVersion
published = record {
  id = 70;
  version = 1;
  entries = record { route_group_id = 1; cidr = codes "149.154.167.99/32" } ∷ [];
}

abbrev published_db : Db
published_db = record route_db { route_versions = published ∷ [] }

resolve_and_publish-IsOutcome_example :
    IsOutcome 70 route_db
      (resolve_and_publish answering 70 route_db).0
      (resolve_and_publish answering 70 route_db).1
resolve_and_publish-IsOutcome_example = resolve_and_publish-IsOutcome answering 70 route_db

steps_nonempty_example :
    ltb 0 (
      length (
        entries_of (
          get_current_version (
            steps
              (Step.resolves silent 71
                ∷ Step.enables "telegram" false
                ∷ Step.resolves silent 72
                ∷ [])
              published_db))))
    ≡ true
unfolding get_current_version greatest
steps_nonempty_example =
    steps_nonempty
      (Step.resolves silent 71 ∷ Step.enables "telegram" false ∷ Step.resolves silent 72 ∷ [])
      published_db refl
