-- ===== src/Routes/Frame.antt =====
-- What editing the groups of routes keeps.
use fredoomeaxima.Common.{
  ℕ, String, Bool, true, ◌&&◌, ltb, length, List, Option, none, some, Bool-cases, inl, inr,
}
use fredoomeaxima.Database.{Db, Peer, RouteEntry, RouteListVersion}
use fredoomeaxima.Database.Tables.{update_where}
use fredoomeaxima.Routes.{
  UpsertRouteGroupInput, upsert_group, set_enabled, Dns, is_empty, is_changed, publish, settle,
  resolve_and_publish,
}
use fredoomeaxima.Exec.Keeps.{Keeps, keeps_rules}
use fredoomeaxima.Database.Frame.{Frame}

module _ (P : Db → Type 0) (frame : Frame P) where
  pub upsert_group-Keeps :
      (new_id : ℕ) (input : UpsertRouteGroupInput) → Keeps P (upsert_group new_id input)
  unfolding upsert_group
  upsert_group-Keeps new_id input = search (keeps_rules, frame.route_groups) depth 12

  pub set_enabled-Keeps : (key : String) (b : Bool) → Keeps P (set_enabled key b)
  unfolding set_enabled
  set_enabled-Keeps key b = search (keeps_rules, frame.route_groups) depth 12

  module _
      (flags : (db : Db) (q : Peer → Bool) (rows : List RouteListVersion)
        → P db
        → P (record db {
          route_versions = rows;
          peers = update_where q (λ p. record p { needs_update = true }) db.peers;
        })) where
    settle-Keeps :
        (new_id : ℕ) (current : Option RouteListVersion) (entries : List RouteEntry)
        → Keeps P (settle new_id current entries)
    unfolding settle publish
    settle-Keeps new_id none entries = record { at = λ db p. flags db _ _ p }
    settle-Keeps new_id (some v) entries = record {
      at = λ db p. elim (Bool-cases (is_empty entries && ltb 0 (length v.entries))) [
        | inl emptied ↦ rw emptied p
        | inr more ↦ elim (Bool-cases (is_changed v.entries entries)) [
          | inl new ↦ rw (more, new) (flags db _ _ p)
          | inr same ↦ rw (more, same) p
        ]
      ];
    }

    pub resolve_and_publish-Keeps :
        (dns : Dns) (new_id : ℕ) → Keeps P (resolve_and_publish dns new_id)
    unfolding resolve_and_publish
    resolve_and_publish-Keeps dns new_id = search (keeps_rules, settle-Keeps) depth 8
