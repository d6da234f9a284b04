-- ===== src/Audit.antt =====
-- apps/api/src/audit/audit.service.ts: the log of the administrators' actions, newest first.
use fredoomeaxima.Common.{◌∷◌}
use fredoomeaxima.Exec.{Exec, modify}
use fredoomeaxima.Database.{Db, AdminAction}

-- `record`, without the metadata and the address.
unfoldable pub record_action : AdminAction → Exec Db (Unit {0})
record_action entry = modify (λ db. record db { admin_actions = entry ∷ db.admin_actions })
