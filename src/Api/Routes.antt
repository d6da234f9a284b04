-- ===== src/Api/Routes.antt =====
-- apps/api/src/routes/routes.controller.ts, but for the listing of the groups.
use fredoomeaxima.Common.{ℕ, String, Bool, Option, none, some}
use fredoomeaxima.Exec.{Exec, pure, gets, ◌>>=◌, ◌>>◌}
use fredoomeaxima.Database.{Db, RouteGroup}
use fredoomeaxima.Routes.{
  UpsertRouteGroupInput, get_current_version, upsert_group, set_enabled, resolve_and_publish,
}
use fredoomeaxima.Audit.{record_action}
use fredoomeaxima.Api.{AuthUser, Method, Endpoint, Env, Reply, current_user, for_users, for_admins}

pub data RoutesCall : Type 0 where
  current resolve : RoutesCall
  upsert : UpsertRouteGroupInput → RoutesCall
  enable : (key : String) → (is_enabled : Bool) → RoutesCall

unfoldable pub endpoint : RoutesCall → Endpoint
endpoint RoutesCall.current = for_users Method.get "routes/current"
endpoint (RoutesCall.upsert dto) = for_admins Method.post "admin/routes/groups"
endpoint (RoutesCall.enable key is_enabled) =
    for_admins Method.patch "admin/routes/groups/:key/enabled"
endpoint RoutesCall.resolve = for_admins Method.post "admin/routes/resolve"

abbrev pub id_of : Option RouteGroup → Option ℕ
id_of none = none
id_of (some g) = some g.id

unfoldable pub handle : {Body : Type 0} → Env Body → Option AuthUser → RoutesCall → Exec Db Reply
handle env who RoutesCall.current = do found ← gets get_current_version; pure (Reply.version found)
handle env who (RoutesCall.upsert dto) = do
  admin ← current_user who
  group ← upsert_group env.new_id dto
  record_action (record {
    admin_id = admin.id;
    action = "route_group.upsert";
    entity_type = some "RouteGroup";
    entity_id = id_of group;
  })
  pure (Reply.group group)
handle env who (RoutesCall.enable key is_enabled) = do
  group ← set_enabled key is_enabled
  pure (Reply.group group)
handle env who RoutesCall.resolve = do
  admin ← current_user who
  result ← resolve_and_publish env.dns env.new_id
  record_action (record {
    admin_id = admin.id;
    action = "route_list.resolve";
    entity_type = none;
    entity_id = none;
  })
  pure (Reply.published result)
