-- ===== src/Health/Frame.antt =====
-- What the checks keep.
use fredoomeaxima.Common.{
  ℕ, String, Bool, not, ◌&&◌, List, [], ◌∷◌, Option, none, some, Bool-cases, inl, inr,
}
use fredoomeaxima.Database.{Db, Server, ServerStatus}
use fredoomeaxima.Servers.{update_server, server_is_active, is_unreachable}
use fredoomeaxima.Health.{
  server_alert, set_status, country_name, Probe, is_exempt, record_check, apply_status_transition,
  check_known, check_server, check_each, check_all, flag_each, heartbeat_watchdog,
}
use fredoomeaxima.Exec.Keeps.{
  Keeps, Keeps-modify, Keeps-bind, Keeps-then, Keeps-gets, Keeps-pure, keeps_rules,
}
use fredoomeaxima.Database.Frame.{Frame}

module _ (P : Db → Type 0) (frame : Frame P) where
  transition-Keeps :
      (server : Server) (healthy : Bool) (service : Option String)
      → Keeps P (apply_status_transition server healthy service)
  unfolding apply_status_transition
  transition-Keeps server healthy service = record {
    at = λ db p. elim (Bool-cases (not healthy && server_is_active server.status)) [
      | inl down ↦ rw down (frame.servers db _ p)
      | inr up ↦ elim (Bool-cases (healthy && is_unreachable server.status)) [
        | inl back ↦ rw (up, back) (frame.servers db _ p)
        | inr same ↦ rw (up, same) p
      ]
    ];
  }

  record_check-keeps :
      (now : ℕ) (server : Server) (probe : Probe) (db : Db)
      → P db
      → P (record_check now server probe db)
  unfolding record_check
  record_check-keeps now server probe db p = frame.health_checks db _ p

  check_known-Keeps :
      (now : ℕ) (probe : Probe) (found : Option Server) → Keeps P (check_known now probe found)
  unfolding check_known
  check_known-Keeps now probe none = search keeps_rules
  check_known-Keeps now probe (some s) = elim (Bool-cases (is_exempt s.status)) [
    | inl exempt ↦ rw exempt (search keeps_rules)
    | inr checked ↦ rw checked (search (keeps_rules, transition-Keeps, record_check-keeps) depth 8)
  ]

  pub check_server-Keeps :
      (now server_id : ℕ) (probe : Probe) → Keeps P (check_server now server_id probe)
  unfolding check_server
  check_server-Keeps now server_id probe = search (keeps_rules, check_known-Keeps) depth 8

  check_each-Keeps :
      (now : ℕ) (probe : ℕ → Probe) (ids : List ℕ) → Keeps P (check_each now probe ids)
  unfolding check_each
  check_each-Keeps now probe [] = search keeps_rules
  check_each-Keeps now probe (id ∷ ids) =
      Keeps-bind _ _ (check_server-Keeps now id (probe id))
        (λ alerts. Keeps-bind _ _ (check_each-Keeps now probe ids) (λ more. Keeps-pure _))

  pub check_all-Keeps : (now : ℕ) (probe : ℕ → Probe) → Keeps P (check_all now probe)
  unfolding check_all
  check_all-Keeps now probe = search (keeps_rules, check_each-Keeps) depth 8

  flag_each-Keeps : (stale : List Server) → Keeps P (flag_each stale)
  unfolding flag_each
  flag_each-Keeps [] = search keeps_rules
  flag_each-Keeps (s ∷ stale) =
      Keeps-then _ _
        (Keeps-modify (update_server s.id (set_status ServerStatus.unreachable))
          (λ db p. frame.servers db _ p))
        (Keeps-bind _ _ (Keeps-gets (country_name s.country_id)) (λ country.
          Keeps-bind _ _ (flag_each-Keeps stale) (λ more. Keeps-pure (
            server_alert s.name country "no heartbeat for >10 minutes" none s.last_heartbeat_at
            ∷ more))))

  pub heartbeat_watchdog-Keeps : (now : ℕ) → Keeps P (heartbeat_watchdog now)
  unfolding heartbeat_watchdog
  heartbeat_watchdog-Keeps now = search (keeps_rules, flag_each-Keeps) depth 8
