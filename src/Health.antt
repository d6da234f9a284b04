-- ===== src/Health.antt =====
-- apps/api/src/health: the checks of HealthService and the jobs of HealthScheduler. What a probe
-- and the agent find out is an argument; the alerts that go to Telegram are part of the result.
pub mod Frame
pub mod Transitions
pub mod Control
mod Tests
use fredoomeaxima.Common.{
  take, ℕ, ◌+◌, ◌*◌, ◌-◌, String, Bool, true, false, not, ◌&&◌, ◌||◌, List, [], ◌∷◌, ◌++◌, Option,
  none, some, ltb, leb, ◌==◌, find, filter, all, map, if◌then◌else◌,
}
use Prim.Native.String.{◌++◌ as text_append}
use fredoomeaxima.Exec.{Exec, ok, err, pure, gets, modify, ◌>>=◌, ◌>>◌}
use fredoomeaxima.Database.{Db, Server, ServerStatus, HealthCheck, Country}
use fredoomeaxima.Database.Tables.{update_where, greatest}
use fredoomeaxima.Servers.{find_server, update_server, server_is_active, is_unreachable}

-- What one check sees. `target` is the agent's answer, or `none` when the call failed.
pub record TargetCheck : Type 0 where
  pub dns_ok : Bool
  pub results : List (String × Bool)

pub record Probe : Type 0 where
  pub reachable : Bool
  pub latency_ms : ℕ
  pub target : Option TargetCheck

pub data Alert : Type 0 where
  server_alert :
      (server_name country problem : String)
      → (unavailable_service : Option String) → (last_successful_check : Option ℕ) → Alert
  recovered : (server_name : String) → Alert
  renewal_due : (server_name : String) → (next_renewal_at : Option ℕ) → Alert

-- `udpPortReachable`
abbrev udp_port_reachable : Bool
udp_port_reachable = true

abbrev results_of : Option TargetCheck → List (String × Bool)
results_of none = []
results_of (some t) = t.results

abbrev dns_of : Option TargetCheck → Bool
dns_of none = false
dns_of (some t) = t.dns_ok

-- The first service that is not available.
first_unavailable : List (String × Bool) → Option String
first_unavailable [] = none
first_unavailable ((name, up) ∷ rs) =
    let rest = first_unavailable rs in if up then rest else some name

unfoldable pub is_healthy : Probe → Bool
is_healthy p = p.reachable && (udp_port_reachable && all (λ r. r.1) (results_of p.target))

describe_problem : Bool → Bool → Option String → String
describe_problem false wg_port_open service = "server unreachable (TCP)"
describe_problem true false service = "WireGuard UDP port closed"
describe_problem true true (some service) = text_append "target service unavailable: " service
describe_problem true true none = "unhealthy"

-- Disabled servers and servers in maintenance are not checked.
unfoldable pub is_exempt : ServerStatus → Bool
is_exempt ServerStatus.disabled = true
is_exempt ServerStatus.maintenance = true
is_exempt ServerStatus.pending = false
is_exempt ServerStatus.active = false
is_exempt ServerStatus.unreachable = false

abbrev country_name : ℕ → Db → String
country_name id db = elim (find (λ c. c.id == id) db.countries) [
  | none ↦ "unknown"
  | some c ↦ c.name
]

last_ok : ℕ → Db → Option ℕ
last_ok server_id db =
    elim (greatest (λ h. h.checked_at)
      (filter (λ h. h.server_id == server_id && h.ok) db.health_checks)) [
        | none ↦ none
        | some h ↦ some h.checked_at
      ]

abbrev problem_of : Option String → String
problem_of none = "server/WG port unreachable"
problem_of (some service) = "target service unavailable"

abbrev set_status : ServerStatus → Server → Server
set_status status s = record s { status = status }

-- `applyStatusTransition`, with the alerts that it sends
apply_status_transition : Server → Bool → Option String → Exec Db (List Alert)
apply_status_transition server healthy service db =
    if not healthy && server_is_active server.status
    then (
      ok (
          server_alert server.name (country_name server.country_id db) (problem_of service) service
            (last_ok server.id db)
          ∷ []),
      update_server server.id (set_status ServerStatus.unreachable) db,
    )
    else if healthy && is_unreachable server.status
    then (
      ok (recovered server.name ∷ []),
      update_server server.id (set_status ServerStatus.active) db,
    )
    else (ok [], db)

record_check : ℕ → Server → Probe → Db → Db
record_check now server p db =
    let service = first_unavailable (results_of p.target) in
    record db {
      health_checks =
          record {
            server_id = server.id;
            checked_at = now;
            reachable = p.reachable;
            wg_port_open = udp_port_reachable;
            latency_ms = if p.reachable then some p.latency_ms else none;
            dns_ok = dns_of p.target;
            target_results = results_of p.target;
            ok = is_healthy p;
            detail =
                if is_healthy p
                then "healthy"
                else describe_problem p.reachable udp_port_reachable service;
          }
          ∷ db.health_checks;
    }

check_known : ℕ → Probe → Option Server → Exec Db (List Alert)
check_known now p none = pure []
check_known now p (some server) = if is_exempt server.status then pure [] else do
  modify (record_check now server p)
  apply_status_transition server (is_healthy p) (first_unavailable (results_of p.target))

pub check_server : ℕ → ℕ → Probe → Exec Db (List Alert)
check_server now server_id p = do found ← gets (find_server server_id); check_known now p found

abbrev is_checked : Server → Bool
is_checked s = server_is_active s.status || is_unreachable s.status

-- The loop of `checkAll`, over the identifiers that were selected.
check_each : ℕ → (ℕ → Probe) → List ℕ → Exec Db (List Alert)
check_each now probe [] = pure []
check_each now probe (id ∷ ids) = do
  alerts ← check_server now id (probe id)
  more ← check_each now probe ids
  pure (alerts ++ more)

pub check_all : ℕ → (ℕ → Probe) → Exec Db (List Alert)
check_all now probe = do
  ids ← gets (λ db. map (λ s. s.id) (filter is_checked db.servers))
  check_each now probe ids

abbrev is_some : Option ℕ → Bool
is_some none = false
is_some (some n) = true

abbrev before : ℕ → Option ℕ → Bool
before cutoff none = false
before cutoff (some t) = ltb t cutoff

abbrev ten_minutes : ℕ
ten_minutes = 600000

-- The `where` of `heartbeatWatchdog`.
is_stale : ℕ → Server → Bool
is_stale now s =
    server_is_active s.status
    && (is_some s.registered_at && before (now - ten_minutes) s.last_heartbeat_at)

flag_each : List Server → Exec Db (List Alert)
flag_each [] = pure []
flag_each (s ∷ stale) = do
  modify (update_server s.id (set_status ServerStatus.unreachable))
  country ← gets (country_name s.country_id)
  more ← flag_each stale
  pure (server_alert s.name country "no heartbeat for >10 minutes" none s.last_heartbeat_at ∷ more)

pub heartbeat_watchdog : ℕ → Exec Db (List Alert)
heartbeat_watchdog now = do stale ← gets (λ db. filter (is_stale now) db.servers); flag_each stale

abbrev at_most : ℕ → Option ℕ → Bool
at_most soon none = false
at_most soon (some t) = leb t soon

pub vps_renewal_reminders : ℕ → Db → List Alert
vps_renewal_reminders now db =
    map (λ s. renewal_due s.name s.next_renewal_at)
      (filter (λ s. at_most (now + 5 * 86400000) s.next_renewal_at) db.servers)

pub recent_checks : ℕ → ℕ → Db → List HealthCheck
recent_checks server_id limit db =
    take limit (filter (λ c. c.server_id == server_id) db.health_checks)
