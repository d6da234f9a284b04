-- ===== src/Panel/Tests.antt =====
-- A day of the panel: Ada adds a device, an administrator publishes the routes, the watchdog runs,
-- Ada replaces the device.
use fredoomeaxima.Common.{ℕ, ◌≡◌, refl, false, map, none, some}
use fredoomeaxima.Text.{codes}
use fredoomeaxima.Database.{Db, RouteEntry, ServerStatus, PaymentStatus}
use fredoomeaxima.Database.Samples.{sample, helsinki}
use fredoomeaxima.IpAlloc.Samples.{digits_of-ReadsOctets}
use fredoomeaxima.Cidr.Sanitize.{loopback_reserved}
use fredoomeaxima.Cidr.Blocks.{routes}
use fredoomeaxima.Routes.{get_current_version, entries_of}
use fredoomeaxima.Exec.{ok}
use fredoomeaxima.Api.{Reply}
use fredoomeaxima.Peers.Seats.{tunnel_of, IsSeated}
use fredoomeaxima.Api.Samples.{env}
use fredoomeaxima.Api.Peers.{PeersCall}
use fredoomeaxima.Api.Routes.{RoutesCall, handle as handle_routes}
use fredoomeaxima.Api.Router.{Call, handle_of}
use fredoomeaxima.Panel.{Event, Leads, here, next, after}
use fredoomeaxima.Panel.Addresses.{WithTunnel, seats_stay}
use fredoomeaxima.Panel.RouteLists.{published_never_reserved}

abbrev morning : Db
morning =
    sample PaymentStatus.pending
      (record (helsinki ServerStatus.active) { server_public_key = some 88 })

abbrev adding : Event ℕ
adding = Event.request env (some (codes "Bearer ada")) (Call.peers (PeersCall.create 5 none))

abbrev publishing : Event ℕ
publishing = Event.request env (some (codes "Bearer root")) (Call.routes RoutesCall.resolve)

abbrev watching : Event ℕ
watching = Event.heartbeat_watchdog 2000

abbrev replacing : Event ℕ
replacing = Event.request env (some (codes "Bearer ada")) (Call.peers (PeersCall.recreate 44))

abbrev evening : Db
evening = after replacing (after watching (after publishing (after adding morning)))

the_day : Leads {Body = ℕ} (WithTunnel (tunnel_of env.world)) morning evening
the_day =
    next _ _ adding refl
      (next _ _ publishing refl (next _ _ watching tt (next _ _ replacing refl (here _))))

seats_stay_example : IsSeated (tunnel_of env.world) evening.peers
seats_stay_example =
    seats_stay (tunnel_of env.world) digits_of-ReadsOctets morning evening the_day
      (record { seats = tt; apart = tt })

answered :
    (handle_of env (Call.routes RoutesCall.current) none evening).0
    ≡ ok (Reply.version (get_current_version evening))
unfolding handle_routes
answered = refl

published_never_reserved_example :
    routes 2130706433 (map (λ (e : RouteEntry). e.cidr) (entries_of (get_current_version evening)))
    ≡ false
published_never_reserved_example =
    published_never_reserved 2130706433 morning evening env none (get_current_version evening) refl
      the_day answered loopback_reserved
