-- ===== src/Provisioning/Known.antt =====
-- Steps of a run keep the server in its table.
use fredoomeaxima.Common.{
  ℕ, ◌≡◌, refl, ◌∙◌, ap, List, [], ◌∷◌, Option, none, some, ◌==◌, Bool-cases, inl, inr,
}
use fredoomeaxima.Text.{Text}
use fredoomeaxima.Exec.{Result, lift, bind_keeps}
use fredoomeaxima.Database.{Db, Server, ProvisionStatus}
use fredoomeaxima.Database.Tables.{map_option, find-update_where}
use fredoomeaxima.Servers.{find_server, update_server}
use fredoomeaxima.Provisioning.{
  SshTarget, Session, set_provision, append, append_all, fail, upload_bundle, token_of, is_zero,
  finish, conclude, install,
}

-- The server is in the table.
abbrev pub IsKnown : ℕ → Db → Type 0
IsKnown id db = (s : Server) × (find_server id db ≡ some s)

pub update_server-IsKnown :
    (id : ℕ) (f : Server → Server) (db : Db)
    → ((s : Server) → (f s).id ≡ s.id)
    → IsKnown id db
    → IsKnown id (update_server id f db)
update_server-IsKnown id f db keeps (s, known) =
    let found =
      find-update_where (λ s. s.id == id) (λ s. s.id == id) f db.servers (λ s. rw (keeps s) refl) in
    (_, found ∙ ap (map_option _) known)

pub append-IsKnown :
    (id : ℕ) (target : SshTarget) (chunk : Text) (db : Db)
    → IsKnown id db
    → IsKnown id (append id target chunk db).1
unfolding append
append-IsKnown id target chunk db = update_server-IsKnown id _ db (λ s. refl)

pub append_all-IsKnown :
    (id : ℕ) (target : SshTarget) (chunks : List Text) (db : Db)
    → IsKnown id db
    → IsKnown id (append_all id target chunks db).1
unfolding append_all
append_all-IsKnown id target [] db k = k
append_all-IsKnown id target (c ∷ cs) db k =
    bind_keeps (IsKnown id) (append id target c) (λ _. append_all id target cs) db
      (append-IsKnown id target c db k) (λ a d l. append_all-IsKnown id target cs d l)

pub upload_bundle-IsKnown :
    (session : Session) (id : ℕ) (target : SshTarget) (db : Db)
    → IsKnown id db
    → IsKnown id (upload_bundle session id target db).1
unfolding upload_bundle
upload_bundle-IsKnown session id target db k = elim (Bool-cases session.has_bundle) [
  | inl there ↦ rw there (
      bind_keeps (IsKnown id) (lift session.put_bundle) (λ _. append id target _) db k
        (λ a d l. append-IsKnown id target _ d l))
  | inr missing ↦ rw missing (append-IsKnown id target _ db k)
]

set_provision-IsKnown :
    (id : ℕ) (status : ProvisionStatus) (db : Db)
    → IsKnown id db
    → IsKnown id (set_provision id status db).1
unfolding set_provision
set_provision-IsKnown id status db = update_server-IsKnown id _ db (λ s. refl)

fail-IsKnown : (id : ℕ) (db : Db) → IsKnown id db → IsKnown id (fail id db).1
unfolding fail
fail-IsKnown id db = set_provision-IsKnown id ProvisionStatus.failed db

finish-IsKnown :
    (id : ℕ) (target : SshTarget) (code : Option ℕ) (db : Db)
    → IsKnown id db
    → IsKnown id (finish id target code db).1
unfolding finish
finish-IsKnown id target code db k = elim (Bool-cases (is_zero code)) [
  | inl done ↦ rw done (
      bind_keeps (IsKnown id) (append id target _) (λ _. set_provision id ProvisionStatus.success)
        db (append-IsKnown id target _ db k)
        (λ a d l. set_provision-IsKnown id ProvisionStatus.success d l))
  | inr broken ↦ rw broken (
      bind_keeps (IsKnown id) (append id target _) (λ _. fail id) db
        (append-IsKnown id target _ db k) (λ a d l. fail-IsKnown id d l))
]

conclude-IsKnown :
    (id : ℕ) (target : SshTarget) (exit_code : Option (Result (Option ℕ))) (db : Db)
    → IsKnown id db
    → IsKnown id (conclude id target exit_code db).1
unfolding conclude
conclude-IsKnown id target none db k = k
conclude-IsKnown id target (some exit_code) db k =
    bind_keeps (IsKnown id) (lift exit_code) _ db k (λ code d k. finish-IsKnown id target code d k)

pub install-IsKnown :
    (session : Session) (server : Server) (target : SshTarget) (db : Db)
    → IsKnown server.id db
    → IsKnown server.id (install session server target db).1
unfolding install
install-IsKnown session server target db k =
    let id = server.id in
    let P = IsKnown id in
    bind_keeps P (append id target _) _ db (append-IsKnown id target _ db k) (λ a d k.
      bind_keeps P (lift session.connect) _ d k (λ a d k.
        bind_keeps P (append id target _) _ d (append-IsKnown id target _ d k) (λ a d k.
          bind_keeps P (upload_bundle session id target) _ d
            (upload_bundle-IsKnown session id target d k)
            (λ a d k.
              bind_keeps P (lift (token_of session server.agent_token_enc)) _ d k (λ token d k.
                bind_keeps P (lift (session.upload_script server token)) _ d k (λ a d k.
                  bind_keeps P (append id target _) _ d (append-IsKnown id target _ d k) (λ a d k.
                    bind_keeps P (append_all id target session.output) _ d
                      (append_all-IsKnown id target session.output d k)
                      (λ a d k. conclude-IsKnown id target session.exit_code d k))))))))
