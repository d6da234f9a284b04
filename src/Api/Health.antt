-- ===== src/Api/Health.antt =====
-- apps/api/src/health/health.controller.ts, but for the liveness probe.
use fredoomeaxima.Common.{ℕ, Option}
use fredoomeaxima.Exec.{Exec, pure, gets, ◌>>=◌}
use fredoomeaxima.Database.{Db}
use fredoomeaxima.Health.{recent_checks, check_server}
use fredoomeaxima.Api.{AuthUser, Method, Endpoint, Env, Reply, for_admins}

pub data HealthCall : Type 0 where
  recent run : (id : ℕ) → HealthCall

unfoldable pub endpoint : HealthCall → Endpoint
endpoint (HealthCall.recent id) = for_admins Method.get "admin/servers/:id/health"
endpoint (HealthCall.run id) = for_admins Method.post "admin/servers/:id/health/run"

unfoldable pub handle : {Body : Type 0} → Env Body → Option AuthUser → HealthCall → Exec Db Reply
handle env who (HealthCall.recent id) = do
  rows ← gets (recent_checks id 20)
  pure (Reply.checks rows)
handle env who (HealthCall.run id) = do
  raised ← check_server env.now id (env.probe id)
  pure (Reply.alerts raised)
