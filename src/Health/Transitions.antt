-- ===== src/Health/Transitions.antt =====
-- How the panel moves a server between its states by itself: by registration, heartbeats, health
-- checks and the heartbeat watchdog.
use fredoomeaxima.Common.{
  ℕ, ◌≡◌, refl, ap, ◌∙◌, Bool, true, false, ◌&&◌, Option, none, some, ◌==◌, ==-refl, all,
}
use Prim.Native.String.{String}
use fredoomeaxima.Database.{Db, Server, ServerStatus}
use fredoomeaxima.Database.Tables.{find-update_where}
use fredoomeaxima.Servers.{find_server, update_server, server_is_active, is_unreachable}
use fredoomeaxima.Health.{
  Probe, TargetCheck, udp_port_reachable, results_of, is_healthy, is_exempt, set_status,
  record_check, apply_status_transition, check_known, check_server,
}

-- The table of the moves by a check.
unfoldable pub next_status : Bool → ServerStatus → ServerStatus
next_status false ServerStatus.active = ServerStatus.unreachable
next_status true ServerStatus.active = ServerStatus.active
next_status true ServerStatus.unreachable = ServerStatus.active
next_status false ServerStatus.unreachable = ServerStatus.unreachable
next_status healthy ServerStatus.pending = ServerStatus.pending
next_status healthy ServerStatus.disabled = ServerStatus.disabled
next_status healthy ServerStatus.maintenance = ServerStatus.maintenance

set_status-found :
    (id : ℕ) (st : ServerStatus) (s : Server) (db : Db)
    → find_server id db ≡ some s
    → find_server id (update_server s.id (set_status st) db) ≡ some (set_status st s)
set_status-found id st s db h =
    find-update_where (λ r. r.id == id) (λ r. r.id == s.id) (set_status st) db.servers (λ r. refl)
    ∙ rw h (rw (==-refl s.id) refl)

-- The transition gives the server, under its own identifier, the status of the table.
transition_lem :
    (id : ℕ) (healthy : Bool) (service : Option String) (db : Db) (s : Server) (st : ServerStatus)
    → find_server id db ≡ some (set_status st s)
    → find_server id (apply_status_transition (set_status st s) healthy service db).1
      ≡ some (set_status (next_status healthy st) s)
unfolding apply_status_transition next_status server_is_active is_unreachable
transition_lem id true service db s ServerStatus.pending h = h
transition_lem id false service db s ServerStatus.pending h = h
transition_lem id true service db s ServerStatus.disabled h = h
transition_lem id false service db s ServerStatus.disabled h = h
transition_lem id true service db s ServerStatus.maintenance h = h
transition_lem id false service db s ServerStatus.maintenance h = h
transition_lem id true service db s ServerStatus.active h = h
transition_lem id false service db s ServerStatus.active h =
    set_status-found id ServerStatus.unreachable (set_status ServerStatus.active s) db h
transition_lem id true service db s ServerStatus.unreachable h =
    set_status-found id ServerStatus.active (set_status ServerStatus.unreachable s) db h
transition_lem id false service db s ServerStatus.unreachable h = h

check_known_lem :
    (now id : ℕ) (p : Probe) (db : Db) (s : Server) (st : ServerStatus)
    → find_server id db ≡ some (set_status st s)
    → find_server id (check_known now p (some (set_status st s)) db).1
      ≡ some (set_status (next_status (is_healthy p) st) s)
unfolding check_known is_exempt record_check next_status
check_known_lem now id p db s ServerStatus.disabled h = h
check_known_lem now id p db s ServerStatus.maintenance h = h
check_known_lem now id p db s ServerStatus.pending h =
    transition_lem id (is_healthy p) _ (record_check now (set_status ServerStatus.pending s) p db) s
      ServerStatus.pending h
check_known_lem now id p db s ServerStatus.active h =
    transition_lem id (is_healthy p) _ (record_check now (set_status ServerStatus.active s) p db) s
      ServerStatus.active h
check_known_lem now id p db s ServerStatus.unreachable h =
    transition_lem id (is_healthy p) _
      (record_check now (set_status ServerStatus.unreachable s) p db) s ServerStatus.unreachable h

-- A check of a server that exists moves its status by the table and changes nothing else of it.
pub check_server-next_status :
    (now id : ℕ) (p : Probe) (s : Server) (db : Db)
    → find_server id db ≡ some s
    → find_server id (check_server now id p db).1
      ≡ some (set_status (next_status (is_healthy p) s.status) s)
unfolding check_server
check_server-next_status now id p s db h = rw h (check_known_lem now id p db s s.status h)

recovers :
    {b : Bool} {st : ServerStatus}
    → b ≡ true
    → st ≡ ServerStatus.unreachable
    → next_status b st ≡ ServerStatus.active
unfolding next_status
recovers e u = rw (e, u) refl

healthy_lem :
    (reachable : Bool) (t : Option TargetCheck)
    → t ≡ none
    → reachable ≡ true
    → (reachable && (udp_port_reachable && all (λ r. r.1) (results_of t))) ≡ true
unfolding all
healthy_lem reachable t e r = rw (e, r) refl

-- When the agent does not answer, a server that the panel holds for unreachable and whose TCP port
-- answers is set active again.
pub unanswered_check_recovers :
    (now id : ℕ) (p : Probe) (s : Server) (db : Db)
    → find_server id db ≡ some s
    → s.status ≡ ServerStatus.unreachable
    → p.target ≡ none
    → p.reachable ≡ true
    → find_server id (check_server now id p db).1 ≡ some (set_status ServerStatus.active s)
unfolding is_healthy
unanswered_check_recovers now id p s db h u t r =
    check_server-next_status now id p s db h
    ∙ ap (λ st. some (set_status st s)) (recovers (healthy_lem p.reachable p.target t r) u)
