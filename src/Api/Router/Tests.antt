-- ===== src/Api/Router/Tests.antt =====
-- An administrator's request, and one without a token.
use fredoomeaxima.Common.{ℕ, ◌≡◌, refl, [], ◌∷◌, some, find, any}
use fredoomeaxima.Text.{codes, text_eq}
use fredoomeaxima.Database.{Db, UserRole}
use fredoomeaxima.Database.Tables.{update_where}
use fredoomeaxima.Database.Samples.{ada, bob, empty_db}
use fredoomeaxima.Auth.{is_blocked, revoke_all_for_user}
use fredoomeaxima.Users.{set_status, revoke_if}
use fredoomeaxima.Audit.{record_action}
use fredoomeaxima.Api.{
  AuthUser, Reply, starts_with, drop, bearer, jwt_guard, same_role, permitted, roles_guard, guarded,
}
use fredoomeaxima.Api.Samples.{verify, env}
use fredoomeaxima.Api.Guards.{bearer_of, IsAdminOnly}
use fredoomeaxima.Api.Users.{UsersCall, endpoint as users_endpoint, handle as handle_users}
use fredoomeaxima.Api.Router.{Call, serve, handle_of}
use fredoomeaxima.Api.Router.Restricted.{serve-IsAdminOnly}
use fredoomeaxima.Api.Router.Entries.{IsLogged}
use fredoomeaxima.Api.Router.Trail.{serve-IsLogged}

abbrev user_db : Db
user_db = record empty_db { users = ada ∷ bob ∷ [] }

abbrev blocking : Call ℕ
blocking = Call.users (UsersCall.block 1)

serve-IsAdminOnly_example :
    IsAdminOnly
      (verify 1000)
      (some (codes "Bearer bob"))
      (handle_of env blocking)
      user_db
      (serve env (some (codes "Bearer bob")) blocking user_db)
unfolding users_endpoint starts_with
serve-IsAdminOnly_example = serve-IsAdminOnly env (some (codes "Bearer bob")) blocking user_db refl

serve-IsLogged_example :
    (admin : AuthUser) × (bearer_of (verify 1000) (some (codes "Bearer root")) ≡ some admin)
    × (admin.role ≡ UserRole.admin)
    × IsLogged admin.id "user.block" (serve env (some (codes "Bearer root")) blocking user_db).1
unfolding serve users_endpoint handle_users starts_with drop text_eq guarded jwt_guard bearer
    roles_guard permitted same_role any set_status find is_blocked revoke_if revoke_all_for_user
    record_action update_where
serve-IsLogged_example =
    serve-IsLogged env user_db (some (codes "Bearer root")) blocking Reply.done "user.block" refl
      refl refl
