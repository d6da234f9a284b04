-- ===== src/Api/Router/Trail.antt =====
-- The entries that administrators' requests leave in the log of actions.
use fredoomeaxima.Common.{
  ◌≡◌, refl, sym, ◌∙◌, ap, subst, String, true, false, Option, none, some, inl, inr,
}
use fredoomeaxima.Text.{Text, codes}
use fredoomeaxima.Exec.{ok, pure, ◌>>=◌, ◌>>◌}
use fredoomeaxima.Exec.Steps.{bind_ok}
use fredoomeaxima.Database.{Db, UserRole, UserStatus, SubscriptionSource}
use fredoomeaxima.Database.Tables.{OfSome}
use fredoomeaxima.Subscriptions.{grant_or_extend}
use fredoomeaxima.Users.{set_status}
use fredoomeaxima.Payments.{mark_manually_paid}
use fredoomeaxima.Tariffs.{create as create_tariff, update as update_tariff, archive}
use fredoomeaxima.Peers.{admin_delete as delete_peer}
use fredoomeaxima.Routes.{upsert_group, resolve_and_publish}
use fredoomeaxima.Servers.{
  create as create_server, update as update_server, remove as remove_server, restart_wg,
}
use fredoomeaxima.Servers.Countries.{
  create_country as add_country, update_country as change_country, remove_country as drop_country,
}
use fredoomeaxima.Audit.{record_action}
use fredoomeaxima.Api.{AuthUser, Env, Reply, starts_with, action_on}
use fredoomeaxima.Api.Guards.{bearer_of}
use fredoomeaxima.Api.Router.Restricted.{serve-IsAdminOnly}
use fredoomeaxima.Api.Users.{UsersCall, handle as handle_users}
use fredoomeaxima.Api.Payments.{PaymentsCall, handle as handle_payments}
use fredoomeaxima.Api.Tariffs.{TariffsCall, handle as handle_tariffs}
use fredoomeaxima.Api.Peers.{PeersCall, handle as handle_peers}
use fredoomeaxima.Api.Routes.{RoutesCall, id_of, handle as handle_routes}
use fredoomeaxima.Api.Servers.{ServersCall, handle as handle_servers, start_provisioning}
use fredoomeaxima.Api.Router.{Call, endpoint_of, handle_of, serve}
use fredoomeaxima.Api.Router.Entries.{IsLogged, action_of, logged, Leaves, refused}

module _ {Body : Type 0} (env : Env Body) (user : AuthUser) (db : Db) where
  users-Leaves : (c : UsersCall) → Leaves env user db (Call.users c)
  unfolding handle_users
  users-Leaves UsersCall.my_overview r h = tt
  users-Leaves UsersCall.my_subscriptions r h = tt
  users-Leaves (UsersCall.card id) r h = tt
  users-Leaves (UsersCall.block id) r h =
      logged (set_status id UserStatus.blocked) (λ _. action_on user "user.block" "User" id)
        (λ _. Reply.done) db r user.id _ (λ _. refl) (λ _. refl) h
  users-Leaves (UsersCall.unblock id) r h =
      logged (set_status id UserStatus.active) (λ _. action_on user "user.unblock" "User" id)
        (λ _. Reply.done) db r user.id _ (λ _. refl) (λ _. refl) h
  users-Leaves (UsersCall.grant id tariff_id duration_days) r h =
      logged
        (grant_or_extend env.now env.new_subscription_id (record {
          user_id = id;
          tariff_id = tariff_id;
          duration_days = duration_days;
          source = SubscriptionSource.manual;
        }))
        (λ _. action_on user "subscription.grant" "User" id) (λ _. Reply.done) db r user.id _
        (λ _. refl) (λ _. refl) h

  payments-Leaves : (c : PaymentsCall Body) → Leaves env user db (Call.payments c)
  unfolding handle_payments
  payments-Leaves (PaymentsCall.checkout_for tariff_id) r h = tt
  payments-Leaves PaymentsCall.mine r h = tt
  payments-Leaves PaymentsCall.all_payments r h = tt
  payments-Leaves (PaymentsCall.webhook raw) r h = tt
  payments-Leaves (PaymentsCall.mark_paid id) r h =
      logged (mark_manually_paid env.now env.new_subscription_id id)
        (λ _. action_on user "payment.mark_paid" "Payment" id) Reply.payment db r user.id _
        (λ _. refl) (λ _. refl) h

  tariffs-Leaves : (c : TariffsCall) → Leaves env user db (Call.tariffs c)
  unfolding handle_tariffs
  tariffs-Leaves TariffsCall.active_tariffs r h = tt
  tariffs-Leaves TariffsCall.all_tariffs r h = tt
  tariffs-Leaves (TariffsCall.create dto) r h =
      logged (create_tariff env.new_id dto)
        (λ _. action_on user "tariff.create" "Tariff" env.new_id) (λ _. Reply.done) db r user.id _
        (λ _. refl) (λ _. refl) h
  tariffs-Leaves (TariffsCall.update id dto) r h =
      logged (update_tariff id dto) (λ _. action_on user "tariff.update" "Tariff" id)
        (λ _. Reply.done) db r user.id _ (λ _. refl) (λ _. refl) h
  tariffs-Leaves (TariffsCall.remove id) r h =
      logged (archive id) (λ _. action_on user "tariff.archive" "Tariff" id) (λ _. Reply.done) db r
        user.id _ (λ _. refl) (λ _. refl) h

  peers-Leaves : (c : PeersCall) → Leaves env user db (Call.peers c)
  unfolding handle_peers
  peers-Leaves (PeersCall.create server_id label) r h = tt
  peers-Leaves (PeersCall.revoke id) r h = tt
  peers-Leaves (PeersCall.recreate id) r h = tt
  peers-Leaves (PeersCall.admin_delete id) r h =
      logged (delete_peer id) (λ _. action_on user "peer.delete" "WireguardPeer" id)
        (λ _. Reply.done) db r user.id _ (λ _. refl) (λ _. refl) h

  routes-Leaves : (c : RoutesCall) → Leaves env user db (Call.routes c)
  unfolding handle_routes
  routes-Leaves RoutesCall.current r h = tt
  routes-Leaves RoutesCall.resolve r h =
      logged (resolve_and_publish env.dns env.new_id)
        (λ _. record {
          admin_id = user.id;
          action = "route_list.resolve";
          entity_type = none;
          entity_id = none;
        })
        Reply.published db r user.id _ (λ _. refl) (λ _. refl) h
  routes-Leaves (RoutesCall.upsert dto) r h =
      logged (upsert_group env.new_id dto)
        (λ group. record {
          admin_id = user.id;
          action = "route_group.upsert";
          entity_type = some "RouteGroup";
          entity_id = id_of group;
        })
        Reply.group db r user.id _ (λ _. refl) (λ _. refl) h
  routes-Leaves (RoutesCall.enable key is_enabled) r h = tt

  servers-Leaves : (c : ServersCall) → Leaves env user db (Call.servers c)
  unfolding handle_servers start_provisioning record_action
  servers-Leaves (ServersCall.available country_id) r h = tt
  servers-Leaves (ServersCall.register id install_token server_public_key) r h = tt
  servers-Leaves (ServersCall.heartbeat id authorization) r h = tt
  servers-Leaves (ServersCall.create_country dto) r h =
      logged (add_country env.new_id dto)
        (λ _. action_on user "country.create" "VpnCountry" env.new_id) (λ _. Reply.done) db r
        user.id _ (λ _. refl) (λ _. refl) h
  servers-Leaves (ServersCall.update_country id code name) r h =
      logged (change_country id code name) (λ _. action_on user "country.update" "VpnCountry" id)
        (λ _. Reply.done) db r user.id _ (λ _. refl) (λ _. refl) h
  servers-Leaves (ServersCall.remove_country id) r h =
      logged (drop_country id) (λ _. action_on user "country.delete" "VpnCountry" id)
        (λ _. Reply.done) db r user.id _ (λ _. refl) (λ _. refl) h
  servers-Leaves ServersCall.all_servers r h = tt
  servers-Leaves (ServersCall.get id) r h = tt
  servers-Leaves (ServersCall.remove id) r h =
      logged (remove_server id) (λ _. action_on user "server.delete" "VpnServer" id)
        (λ _. Reply.done) db r user.id _ (λ _. refl) (λ _. refl) h
  servers-Leaves (ServersCall.restart id) r h =
      logged (restart_wg env.restart_agent id) (λ _. action_on user "server.restart" "VpnServer" id)
        (λ _. Reply.done) db r user.id _ (λ _. refl) (λ _. refl) h
  servers-Leaves (ServersCall.create dto false ssh_password) r h =
      logged (create_server env.crypto env.new_id env.new_install_token env.new_agent_token dto)
        (λ server. action_on user "server.create" "VpnServer" server.id)
        (λ server. Reply.provisioning server false) db r user.id _ (λ _. refl) (λ _. refl) h
  servers-Leaves (ServersCall.create dto true none) r h =
      let run =
        bind_ok (create_server env.crypto env.new_id env.new_install_token env.new_agent_token dto)
          (λ server.
            record_action (action_on user "server.create" "VpnServer" server.id)
            >> (start_provisioning user server true none >>= λ started.
                pure (Reply.provisioning server started)))
          db r h in
      absurd (refused _ _ (sym (ap (λ p. p.0) run.2) ∙ h))
  servers-Leaves (ServersCall.create dto true (some password)) r h =
      let run =
        bind_ok (create_server env.crypto env.new_id env.new_install_token env.new_agent_token dto)
          (λ server.
            record_action (action_on user "server.create" "VpnServer" server.id)
            >> (start_provisioning user server true (some password) >>= λ started.
                pure (Reply.provisioning server started)))
          db r h in
      (_, _, ap (λ p. p.1.admin_actions) run.2, refl, refl)
  servers-Leaves (ServersCall.update id dto) r h =
      logged (update_server id dto) (λ _. action_on user "server.update" "VpnServer" id)
        (λ _. Reply.done) db r user.id _ (λ _. refl) (λ _. refl) h

  call-Leaves : (c : Call Body) → Leaves env user db c
  call-Leaves (Call.auth c) = λ r h. tt
  call-Leaves (Call.users c) = users-Leaves c
  call-Leaves (Call.payments c) = payments-Leaves c
  call-Leaves (Call.tariffs c) = tariffs-Leaves c
  call-Leaves (Call.peers c) = peers-Leaves c
  call-Leaves (Call.routes c) = routes-Leaves c
  call-Leaves (Call.servers c) = servers-Leaves c
  call-Leaves (Call.health c) = λ r h. tt

module _ {Body : Type 0} (env : Env Body) (db : Db) where
  -- When a write that the log names succeeds, the request carried the token of an administrator,
  -- and the newest entry of the log is this administrator's, for this action.
  pub serve-IsLogged :
      (authorization : Option Text) (c : Call Body) (r : Reply) (action : String)
      → starts_with (codes "admin/") (codes (endpoint_of c).path) ≡ true
      → action_of c ≡ some action
      → (serve env authorization c db).0 ≡ ok r
      → (admin : AuthUser) × (bearer_of (env.verify_access env.now) authorization ≡ some admin)
        × (admin.role ≡ UserRole.admin)
        × IsLogged admin.id action (serve env authorization c db).1
  serve-IsLogged authorization c r action under named h =
      elim (serve-IsAdminOnly env authorization c db under) [
        | inl (admin, known, is_admin, run) ↦
            let left = call-Leaves env admin db c r (sym (ap (λ p. p.0) run) ∙ h) in
            (
              admin,
              known,
              is_admin,
              subst (λ p. IsLogged admin.id action p.1) (sym run)
                  (subst (OfSome (λ a. IsLogged admin.id a (handle_of env c (some admin) db).1))
                    named left),
            )
        | inr (inl (message, run)) ↦ absurd (refused _ _ (sym (ap (λ p. p.0) run) ∙ h))
        | inr (inr (message, run)) ↦ absurd (refused _ _ (sym (ap (λ p. p.0) run) ∙ h))
      ]
