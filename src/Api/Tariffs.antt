-- ===== src/Api/Tariffs.antt =====
-- apps/api/src/tariffs/tariffs.controller.ts
use fredoomeaxima.Common.{ℕ, Option}
use fredoomeaxima.Exec.{Exec, pure, gets, ◌>>=◌, ◌>>◌}
use fredoomeaxima.Database.{Db}
use fredoomeaxima.Tariffs.{
  CreateTariffInput, UpdateTariffInput, list_active, list_all, create as create_tariff,
  update as update_tariff, archive,
}
use fredoomeaxima.Audit.{record_action}
use fredoomeaxima.Api.{
  AuthUser, Method, Endpoint, Env, Reply, current_user, for_users, for_admins, action_on,
}

pub data TariffsCall : Type 0 where
  active_tariffs all_tariffs : TariffsCall
  create : CreateTariffInput → TariffsCall
  update : (id : ℕ) → UpdateTariffInput → TariffsCall
  remove : (id : ℕ) → TariffsCall

unfoldable pub endpoint : TariffsCall → Endpoint
endpoint TariffsCall.active_tariffs = for_users Method.get "tariffs"
endpoint TariffsCall.all_tariffs = for_admins Method.get "admin/tariffs"
endpoint (TariffsCall.create dto) = for_admins Method.post "admin/tariffs"
endpoint (TariffsCall.update id dto) = for_admins Method.patch "admin/tariffs/:id"
endpoint (TariffsCall.remove id) = for_admins Method.delete "admin/tariffs/:id"

unfoldable pub handle : {Body : Type 0} → Env Body → Option AuthUser → TariffsCall → Exec Db Reply
handle env who TariffsCall.active_tariffs = do rows ← gets list_active; pure (Reply.tariffs rows)
handle env who TariffsCall.all_tariffs = do rows ← gets list_all; pure (Reply.tariffs rows)
handle env who (TariffsCall.create dto) = do
  admin ← current_user who
  create_tariff env.new_id dto
  record_action (action_on admin "tariff.create" "Tariff" env.new_id)
  pure Reply.done
handle env who (TariffsCall.update id dto) = do
  admin ← current_user who
  update_tariff id dto
  record_action (action_on admin "tariff.update" "Tariff" id)
  pure Reply.done
handle env who (TariffsCall.remove id) = do
  admin ← current_user who
  archive id
  record_action (action_on admin "tariff.archive" "Tariff" id)
  pure Reply.done
