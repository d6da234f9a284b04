-- ===== src/Panel/RouteLists.antt =====
-- The published route lists, whatever the panel is asked to do.
use fredoomeaxima.Common.{ℕ, ◌≡◌, sym, subst, true, false, [], map, Option, All}
use fredoomeaxima.Database.{Db}
use fredoomeaxima.Database.Frame.{Frame}
use fredoomeaxima.Cidr.{reserved_ranges}
use fredoomeaxima.Cidr.Blocks.{routes}
use fredoomeaxima.Cidr.Merge.{in_ranges}
use fredoomeaxima.Subscriptions.Frame.{expire_due-Keeps}
use fredoomeaxima.Servers.Frame.{remove-Keeps}
use fredoomeaxima.Health.Frame.{check_all-Keeps, heartbeat_watchdog-Keeps}
use fredoomeaxima.Provisioning.Frame.{run-Keeps}
use fredoomeaxima.Peers.{World}
use fredoomeaxima.Peers.Frame.{create-Keeps, revoke-Keeps, recreate-Keeps, admin_delete-Keeps}
use fredoomeaxima.Exec.{Result, ok}
use fredoomeaxima.Database.{RouteEntry, RouteListVersion}
use fredoomeaxima.Database.Tables.{OfSome}
use fredoomeaxima.Routes.{get_current_version, entries_of}
use fredoomeaxima.Api.{AuthUser, Env, Reply}
use fredoomeaxima.Api.Routes.{RoutesCall, handle as handle_routes}
use fredoomeaxima.Api.Router.{Call, handle_of}
use fredoomeaxima.Routes.Steps.{Step}
use fredoomeaxima.Routes.Reserved.{VersionSpares, All-entries_of, current_spares}
use fredoomeaxima.Routes.Spared.{DbSpares, step-DbSpares, cidrs_spare, All-unrouted}
use fredoomeaxima.Api.Router.Kept.{Guarded, serve-Keeps}
use fredoomeaxima.Panel.{Event, Leads, here, next, after}

tables_frame : Frame DbSpares
tables_frame = record {
  users = λ db rows d. d;
  tariffs = λ db rows d. d;
  subscriptions = λ db rows d. d;
  payments = λ db rows d. d;
  countries = λ db rows d. d;
  servers = λ db rows d. d;
  health_checks = λ db rows d. d;
  refresh_tokens = λ db rows d. d;
  route_groups = λ db rows d. d;
  admin_actions = λ db rows d. d;
}

methods_of : (world : World) → Guarded DbSpares world
methods_of world = record {
  frame = tables_frame;
  creates = create-Keeps DbSpares (λ db rows d. d) world;
  revokes = revoke-Keeps DbSpares (λ db rows d. d);
  recreates = recreate-Keeps DbSpares (λ db rows d. d) world;
  deletes = admin_delete-Keeps DbSpares (λ db rows d. d);
  removes = remove-Keeps DbSpares tables_frame (λ db p d. d);
  publishes = λ dns new_id. record { at = step-DbSpares (Step.resolves dns new_id) };
}

version_of :
    {a b : Option RouteListVersion} → (Result.ok (Reply.version a)) ≡ ok (Reply.version b) → a ≡ b
version_of h = cc h

module _ {Body : Type 0} where
  after-DbSpares : (e : Event Body) (db : Db) → DbSpares db → DbSpares (after e db)
  after-DbSpares (Event.request env authorization call) db =
      (serve-Keeps DbSpares env (methods_of env.world) authorization call).at db
  after-DbSpares (Event.run_health_checks now probe) db =
      (check_all-Keeps DbSpares tables_frame now probe).at db
  after-DbSpares (Event.heartbeat_watchdog now) db =
      (heartbeat_watchdog-Keeps DbSpares tables_frame now).at db
  after-DbSpares (Event.expire_subscriptions now) db =
      (expire_due-Keeps DbSpares tables_frame now).at db
  after-DbSpares (Event.provisioning session server_id target) db =
      (run-Keeps DbSpares tables_frame session server_id target).at db

  Leads-DbSpares :
      {Allowed : Event Body → Type 0} (before last : Db)
      → Leads Allowed before last
      → DbSpares before
      → DbSpares last
  Leads-DbSpares before last (here db) d = d
  Leads-DbSpares before last (next b l e allowed rest) d =
      Leads-DbSpares (after e b) last rest (after-DbSpares e b d)

  -- Starting without any published version, whatever is requested, whatever the DNS answers, and
  -- whatever jobs and provisioning runs come between, a reserved address is in none of the blocks
  -- of the version that `GET routes/current` answers with.
  pub published_never_reserved :
      {Allowed : Event Body → Type 0} (x : ℕ) (before last : Db) (env : Env Body)
      (who : Option AuthUser) (found : Option RouteListVersion)
      → before.route_versions ≡ []
      → Leads Allowed before last
      → (handle_of env (Call.routes RoutesCall.current) who last).0 ≡ ok (Reply.version found)
      → in_ranges x reserved_ranges ≡ true
      → routes x (map (λ (e : RouteEntry). e.cidr) (entries_of found)) ≡ false
  unfolding handle_routes
  published_never_reserved x before last env who found fresh events answered reserved =
      let spared = Leads-DbSpares before last events (subst (All VersionSpares) (sym fresh) tt) in
      let same : get_current_version last ≡ found = version_of answered in
      All-unrouted x _ reserved (
        cidrs_spare _
          (All-entries_of found (subst (OfSome VersionSpares) same (current_spares last spared))))
