-- ===== src/Panel.antt =====
-- The panel as a whole: apps/api/src/app.module.ts with the jobs that
-- apps/api/src/health/health.scheduler.ts puts on a timer and the runs that
-- apps/api/src/provisioning/ssh-provisioner.service.ts starts. Each event runs
-- alone, to its end or as far as it gets.
pub mod Addresses
pub mod RouteLists
mod Tests
use fredoomeaxima.Common.{ℕ, Option}
use fredoomeaxima.Text.{Text}
use fredoomeaxima.Database.{Db}
use fredoomeaxima.Subscriptions.{expire_due}
use fredoomeaxima.Health.{Probe, check_all, heartbeat_watchdog as watch}
use fredoomeaxima.Provisioning.{SshTarget, Session, run}
use fredoomeaxima.Api.{Env}
use fredoomeaxima.Api.Router.{Call, serve}

pub data Event (Body : Type 0) : Type 0 where
  request : Env Body → (authorization : Option Text) → Call Body → Event Body
  run_health_checks : (now : ℕ) → (probe : ℕ → Probe) → Event Body
  heartbeat_watchdog : (now : ℕ) → Event Body
  expire_subscriptions : (now : ℕ) → Event Body
  provisioning : Session → (server_id : ℕ) → SshTarget → Event Body

module _ {Body : Type 0} where
  -- The tables that an event leaves, whether it succeeds or fails.
  abbrev pub after : Event Body → Db → Db
  after (Event.request env authorization call) db = (serve env authorization call db).1
  after (Event.run_health_checks now probe) db = (check_all now probe db).1
  after (Event.heartbeat_watchdog now) db = (watch now db).1
  after (Event.expire_subscriptions now) db = (expire_due now db).1
  after (Event.provisioning session server_id target) db = (run session server_id target db).1

-- The tables that events lead to, one after another, each of them `Allowed`.
pub data Leads {Body : Type 0} (Allowed : Event Body → Type 0) : Db → Db → Type 0 where
  here : (db : Db) → Leads Allowed db db
  next :
      (before last : Db) (e : Event Body)
      → Allowed e
      → Leads Allowed (after e before) last
      → Leads Allowed before last
