-- ===== src/Health/Tests.antt =====
-- The theorems on servers at the sample tables, with server number 5.
use fredoomeaxima.Common.{◌≡◌, refl, true, List, [], ◌∷◌, none, some, find}
use fredoomeaxima.Exec.{ok, err, bad_request}
use fredoomeaxima.Database.{Db, Server, ServerStatus, PaymentStatus}
use fredoomeaxima.Database.Samples.{sample, helsinki}
use fredoomeaxima.Servers.{Crypto, find_server, update_server, register}
use fredoomeaxima.Servers.Registration.{registered, register_once, HeldAs}
use fredoomeaxima.Health.{Probe, is_healthy, set_status, check_server}
use fredoomeaxima.Health.Transitions.{
  next_status, check_server-next_status, unanswered_check_recovers,
}
use fredoomeaxima.Health.Control.{Held, Event, handle, Reaches, controlled_stays}

abbrev at_status : ServerStatus → Db
at_status status = sample PaymentStatus.pending (helsinki status)

-- A server that waits for its installation with token 77.
abbrev fresh : Server
fresh = record (helsinki ServerStatus.pending) { install_token = some 77; registered_at = none }

abbrev fresh_db : Db
fresh_db = sample PaymentStatus.pending fresh

register_once_example :
    let after = update_server 5 (registered 1000 88) fresh_db in
    (register 1000 5 77 88 fresh_db ≡ (ok tt, after))
    × (find_server 5 after ≡ some (registered 1000 88 fresh))
    × (register 2000 5 77 89 after ≡ (err (bad_request "Invalid install token"), after))
unfolding find
register_once_example = register_once 1000 5 77 88 2000 77 89 fresh fresh_db refl refl

abbrev silent : Probe
silent = record { reachable = true; latency_ms = 20; target = none }

check_server-next_status_example :
    find_server 5 (check_server 1000 5 silent (at_status ServerStatus.active)).1
    ≡ some (
        set_status
          (next_status (is_healthy silent) ServerStatus.active)
          (helsinki ServerStatus.active))
unfolding find
check_server-next_status_example =
    check_server-next_status 1000 5 silent (helsinki ServerStatus.active)
      (at_status ServerStatus.active) refl

unanswered_check_recovers_example :
    find_server 5 (check_server 1000 5 silent (at_status ServerStatus.unreachable)).1
    ≡ some (helsinki ServerStatus.active)
unfolding find
unanswered_check_recovers_example =
    unanswered_check_recovers 1000 5 silent (helsinki ServerStatus.unreachable)
      (at_status ServerStatus.unreachable) refl refl refl refl

abbrev crypto : Crypto
crypto = record { encrypt = λ n. n; decrypt = λ n. ok n }

-- A heartbeat, a check of all servers and a run of the watchdog.
abbrev day_of_events : List Event
day_of_events = Event.beats 1000 5 501 ∷ Event.checks 2000 (λ id. silent) ∷ Event.watches 3000 ∷ []

abbrev after_all : List Event → Db → Db
after_all [] db = db
after_all (e ∷ es) db = after_all es (handle crypto e db)

Reaches-all : (es : List Event) (db : Db) → Reaches crypto db (after_all es db)
Reaches-all [] db = Reaches.here db
Reaches-all (e ∷ es) db = Reaches.there db _ e (Reaches-all es (handle crypto e db))

controlled_stays_example :
    Held 5 ServerStatus.disabled (after_all day_of_events (at_status ServerStatus.disabled))
controlled_stays_example =
    controlled_stays 5 ServerStatus.disabled crypto (at_status ServerStatus.disabled) _
      (unfold fredoomeaxima.Servers.Registration.is_controlled in refl) ((λ same. (refl, refl)), tt)
      (Reaches-all day_of_events (at_status ServerStatus.disabled))
