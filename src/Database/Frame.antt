-- ===== src/Database/Frame.antt =====
-- Properties of the database that read neither devices nor published route lists.
use fredoomeaxima.Common.{List}
use fredoomeaxima.Database.{
  Db, User, Tariff, Subscription, Payment, Country, Server, HealthCheck, RefreshToken, RouteGroup,
  AdminAction,
}

-- A property that does not read these tables.
pub record Frame (P : Db → Type 0) : Type 0 where
  pub users : (db : Db) (rows : List User) → P db → P (record db { users = rows })
  pub tariffs : (db : Db) (rows : List Tariff) → P db → P (record db { tariffs = rows })
  pub subscriptions :
      (db : Db) (rows : List Subscription) → P db → P (record db { subscriptions = rows })
  pub payments : (db : Db) (rows : List Payment) → P db → P (record db { payments = rows })
  pub countries : (db : Db) (rows : List Country) → P db → P (record db { countries = rows })
  pub servers : (db : Db) (rows : List Server) → P db → P (record db { servers = rows })
  pub health_checks :
      (db : Db) (rows : List HealthCheck) → P db → P (record db { health_checks = rows })
  pub refresh_tokens :
      (db : Db) (rows : List RefreshToken) → P db → P (record db { refresh_tokens = rows })
  pub route_groups :
      (db : Db) (rows : List RouteGroup) → P db → P (record db { route_groups = rows })
  pub admin_actions :
      (db : Db) (rows : List AdminAction) → P db → P (record db { admin_actions = rows })
