-- ===== src/Provisioning/Running.antt =====
-- The status of a server while its installation runs.
use fredoomeaxima.Common.{
  ℕ, ◌≡◌, refl, sym, ◌∙◌, ap, List, [], ◌∷◌, Option, none, some, arith, ◌==◌, Bool-cases,
  Option-cases, inl, inr, find-holds,
}
use fredoomeaxima.Text.{Text}
use fredoomeaxima.Exec.{lift, bind_keeps}
use fredoomeaxima.Database.{Db, Server, ProvisionStatus}
use fredoomeaxima.Database.Tables.{map_option, find-update_where}
use fredoomeaxima.Servers.{find_server, update_server}
use fredoomeaxima.Provisioning.{
  SshTarget, Session, set_provision, append, append_all, upload_bundle, begin,
}
use fredoomeaxima.Provisioning.Known.{IsKnown}

abbrev status_of : Option Server → Option ProvisionStatus
status_of none = none
status_of (some s) = some s.provision_status

-- The status of the server's installation, if the server is known.
abbrev pub status_in : ℕ → Db → Option ProvisionStatus
status_in id db = status_of (find_server id db)

abbrev pub IsRunning : ℕ → Db → Type 0
IsRunning id db = status_in id db ≡ some ProvisionStatus.running

pub IsRunning-IsKnown : (id : ℕ) (db : Db) → IsRunning id db → IsKnown id db
IsRunning-IsKnown id db running = elim (Option-cases (find_server id db)) [
  | inl e ↦ absurd (ground (arith, running, e))
  | inr (s, e) ↦ (s, e)
]

marked :
    (id : ℕ) (f : Server → Server) (status : ProvisionStatus) (db : Db)
    → ((s : Server) → (f s).id ≡ s.id)
    → (known : IsKnown id db) → (f known.0).provision_status ≡ status
    → status_in id (update_server id f db) ≡ some status
marked id f status db same (s, known) sets =
    let own = find-holds (λ s. s.id == id) db.servers s known in
    let found =
      find-update_where (λ s. s.id == id) (λ s. s.id == id) f db.servers (λ s. rw (same s) refl)
      ∙ ap (map_option _) known in
    rw found (rw own (ap some sets))

pub set_provision-status_in :
    (id : ℕ) (status : ProvisionStatus) (db : Db)
    → IsKnown id db
    → status_in id (set_provision id status db).1 ≡ some status
unfolding set_provision
set_provision-status_in id status db known = marked id _ status db (λ s. refl) known refl

pub begin-IsRunning : (id : ℕ) (db : Db) → IsKnown id db → IsRunning id (begin id db).1
unfolding begin
begin-IsRunning id db known = marked id _ ProvisionStatus.running db (λ s. refl) known refl

module _ (id : ℕ) (target : SshTarget) where
  pub append-IsRunning :
      (chunk : Text) (db : Db) → IsRunning id db → IsRunning id (append id target chunk db).1
  unfolding append
  append-IsRunning chunk db running =
      let (s, known) = IsRunning-IsKnown id db running in
      let is_running : some s.provision_status ≡ some ProvisionStatus.running =
        ap status_of (sym known) ∙ running in
      marked id _ ProvisionStatus.running db (λ s. refl) (s, known) (cc is_running)

  pub append_all-IsRunning :
      (chunks : List Text) (db : Db)
      → IsRunning id db
      → IsRunning id (append_all id target chunks db).1
  unfolding append_all
  append_all-IsRunning [] db k = k
  append_all-IsRunning (c ∷ cs) db k =
      bind_keeps (IsRunning id) (append id target c) (λ _. append_all id target cs) db
        (append-IsRunning c db k) (λ a d l. append_all-IsRunning cs d l)

  pub upload_bundle-IsRunning :
      (session : Session) (db : Db)
      → IsRunning id db
      → IsRunning id (upload_bundle session id target db).1
  unfolding upload_bundle
  upload_bundle-IsRunning session db k = elim (Bool-cases session.has_bundle) [
    | inl there ↦ rw there (
        bind_keeps (IsRunning id) (lift session.put_bundle) (λ _. append id target _) db k
          (λ a d l. append-IsRunning _ d l))
    | inr missing ↦ rw missing (append-IsRunning _ db k)
  ]
