-- ===== src/Panel/Addresses.antt =====
-- The addresses of the devices, whatever the panel is asked to do.
use fredoomeaxima.Common.{◌≡◌, subst, Option}
use fredoomeaxima.Text.{Text}
use fredoomeaxima.Database.{Db}
use fredoomeaxima.Database.Frame.{Frame}
use fredoomeaxima.Servers.Frame.{remove-Keeps}
use fredoomeaxima.Routes.Frame.{resolve_and_publish-Keeps}
use fredoomeaxima.Subscriptions.Frame.{expire_due-Keeps}
use fredoomeaxima.Health.Frame.{check_all-Keeps, heartbeat_watchdog-Keeps}
use fredoomeaxima.Provisioning.Frame.{run-Keeps}
use fredoomeaxima.IpAlloc.Hosts.{Tunnel}
use fredoomeaxima.IpAlloc.Fresh.{ReadsOctets}
use fredoomeaxima.Peers.{World}
use fredoomeaxima.Peers.Seats.{
  tunnel_of, IsSeated, IsSeated-filter, flagged-IsSeated, create-IsSeated, revoke-IsSeated,
  recreate-IsSeated, admin_delete-IsSeated,
}
use fredoomeaxima.Api.{Env}
use fredoomeaxima.Api.Router.{Call, serve}
use fredoomeaxima.Api.Router.Kept.{Guarded, serve-Keeps}
use fredoomeaxima.Panel.{Event, Leads, here, next, after}

-- Requests are served with the tunnel's settings.
abbrev pub WithTunnel : {Body : Type 0} → Tunnel → Event Body → Type 0
WithTunnel t (Event.request env authorization call) = tunnel_of env.world ≡ t
WithTunnel t (Event.run_health_checks now probe) = Unit {0}
WithTunnel t (Event.heartbeat_watchdog now) = Unit {0}
WithTunnel t (Event.expire_subscriptions now) = Unit {0}
WithTunnel t (Event.provisioning session server_id target) = Unit {0}

abbrev Seated : Tunnel → Db → Type 0
Seated t db = IsSeated t db.peers

frame_of : (t : Tunnel) → Frame (Seated t)
frame_of t = record {
  users = λ db rows s. s;
  tariffs = λ db rows s. s;
  subscriptions = λ db rows s. s;
  payments = λ db rows s. s;
  countries = λ db rows s. s;
  servers = λ db rows s. s;
  health_checks = λ db rows s. s;
  refresh_tokens = λ db rows s. s;
  route_groups = λ db rows s. s;
  admin_actions = λ db rows s. s;
}

methods_of : (world : World) → ReadsOctets world.number → Guarded (Seated (tunnel_of world)) world
methods_of world reads = record {
  frame = frame_of (tunnel_of world);
  creates = create-IsSeated world reads;
  revokes = revoke-IsSeated world reads;
  recreates = recreate-IsSeated world reads;
  deletes = admin_delete-IsSeated world reads;
  removes =
      remove-Keeps _ (frame_of (tunnel_of world))
        (λ db p. IsSeated-filter (tunnel_of world) p db.peers);
  publishes =
      resolve_and_publish-Keeps _ (frame_of (tunnel_of world))
        (λ db q rows. flagged-IsSeated (tunnel_of world) q db.peers);
}

module _ {Body : Type 0} (t : Tunnel) (reads : ReadsOctets t.number) where
  request-IsSeated :
      (env : Env Body) (authorization : Option Text) (call : Call Body) (db : Db)
      → tunnel_of env.world ≡ t
      → Seated t db
      → Seated t (serve env authorization call db).1
  request-IsSeated env authorization call db same =
      subst (λ u. ReadsOctets u.number → Seated u db → Seated u (serve env authorization call db).1)
        same (λ r. (serve-Keeps _ env (methods_of env.world r) authorization call).at db) reads

  after-IsSeated : (e : Event Body) (db : Db) → WithTunnel t e → Seated t db → Seated t (after e db)
  after-IsSeated (Event.request env authorization call) db same =
      request-IsSeated env authorization call db same
  after-IsSeated (Event.run_health_checks now probe) db w =
      (check_all-Keeps (Seated t) (frame_of t) now probe).at db
  after-IsSeated (Event.heartbeat_watchdog now) db w =
      (heartbeat_watchdog-Keeps (Seated t) (frame_of t) now).at db
  after-IsSeated (Event.expire_subscriptions now) db w =
      (expire_due-Keeps (Seated t) (frame_of t) now).at db
  after-IsSeated (Event.provisioning session server_id target) db w =
      (run-Keeps (Seated t) (frame_of t) session server_id target).at db

  -- Whatever is requested, by whomever, and whatever jobs and provisioning runs come between, if
  -- requests are served with the same tunnel settings and numbers are read as written: where every
  -- active device had a host address of the tunnel's subnet other than the server's, every revoked
  -- device had none, and no two devices of a server had the same address, that is so afterwards.
  pub seats_stay :
      (before last : Db)
      → Leads {Body = Body} (WithTunnel t) before last
      → IsSeated t before.peers
      → IsSeated t last.peers
  seats_stay before last (here db) s = s
  seats_stay before last (next b l e allowed rest) s =
      seats_stay (after e b) last rest (after-IsSeated e b allowed s)
