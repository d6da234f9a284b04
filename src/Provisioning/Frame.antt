-- ===== src/Provisioning/Frame.antt =====
-- What a run of the provisioner keeps.
use fredoomeaxima.Common.{ℕ, List, [], ◌∷◌, Option, none, some, Bool-cases, inl, inr}
use fredoomeaxima.Text.{Text}
use fredoomeaxima.Exec.{Result, ok, err}
use fredoomeaxima.Exec.Keeps.{Keeps, Keeps-then, keeps_rules}
use fredoomeaxima.Database.{Db, Server, ProvisionStatus}
use fredoomeaxima.Database.Frame.{Frame}
use fredoomeaxima.Provisioning.{
  SshTarget, Session, append, append_all, set_provision, fail, upload_bundle, finish, conclude,
  is_zero, install, recover, begin, run_known, run,
}

module _ (P : Db → Type 0) (frame : Frame P) where
  append-Keeps : (id : ℕ) (t : SshTarget) (chunk : Text) → Keeps P (append id t chunk)
  unfolding append
  append-Keeps id t chunk = search (keeps_rules, frame.servers) depth 8

  append_all-Keeps :
      (id : ℕ) (t : SshTarget) (chunks : List Text) → Keeps P (append_all id t chunks)
  unfolding append_all
  append_all-Keeps id t [] = search keeps_rules
  append_all-Keeps id t (c ∷ cs) = Keeps-then _ _ (append-Keeps id t c) (append_all-Keeps id t cs)

  set_provision-Keeps : (id : ℕ) (s : ProvisionStatus) → Keeps P (set_provision id s)
  unfolding set_provision
  set_provision-Keeps id s = search (keeps_rules, frame.servers) depth 8

  fail-Keeps : (id : ℕ) → Keeps P (fail id)
  unfolding fail
  fail-Keeps id = search (keeps_rules, set_provision-Keeps) depth 8

  upload_bundle-Keeps :
      (session : Session) (id : ℕ) (t : SshTarget) → Keeps P (upload_bundle session id t)
  unfolding upload_bundle
  upload_bundle-Keeps session id t = elim (Bool-cases session.has_bundle) [
    | inl has ↦ rw has (search (keeps_rules, append-Keeps) depth 8)
    | inr no_bundle ↦ rw no_bundle (search (keeps_rules, append-Keeps) depth 8)
  ]

  finish-Keeps : (id : ℕ) (t : SshTarget) (code : Option ℕ) → Keeps P (finish id t code)
  unfolding finish
  finish-Keeps id t code = elim (Bool-cases (is_zero code)) [
    | inl zero ↦ rw zero (search (keeps_rules, append-Keeps, set_provision-Keeps) depth 8)
    | inr other ↦ rw other (search (keeps_rules, append-Keeps, fail-Keeps) depth 8)
  ]

  conclude-Keeps :
      (id : ℕ) (t : SshTarget) (exit_code : Option (Result (Option ℕ)))
      → Keeps P (conclude id t exit_code)
  unfolding conclude
  conclude-Keeps id t none = search keeps_rules
  conclude-Keeps id t (some exit_code) = search (keeps_rules, finish-Keeps) depth 8

  install-Keeps : (session : Session) (s : Server) (t : SshTarget) → Keeps P (install session s t)
  unfolding install
  install-Keeps session s t =
      search (keeps_rules, append-Keeps, append_all-Keeps, upload_bundle-Keeps, conclude-Keeps)
        depth 24

  begin-Keeps : (id : ℕ) → Keeps P (begin id)
  unfolding begin
  begin-Keeps id = search (keeps_rules, frame.servers) depth 8

  recover-keeps :
      (id : ℕ) (t : SshTarget) (r : Result (Unit {0})) (db : Db) → P db → P (recover id t (r, db)).1
  unfolding recover
  recover-keeps id t (ok done) db p = p
  recover-keeps id t (err e) db p = (Keeps-then _ _ (append-Keeps id t _) (fail-Keeps id)).at db p

  run_known-Keeps :
      (session : Session) (t : SshTarget) (s : Server) (token : Option ℕ)
      → Keeps P (run_known session t s token)
  unfolding run_known
  run_known-Keeps session t s none = record { at = (fail-Keeps s.id).at }
  run_known-Keeps session t s (some token) = record {
    at = λ db p.
        let started = (begin-Keeps s.id).at db p in
        recover-keeps s.id t _ _ ((install-Keeps session s t).at _ started);
  }

  pub run-Keeps : (session : Session) (id : ℕ) (t : SshTarget) → Keeps P (run session id t)
  unfolding run
  run-Keeps session id t = search (keeps_rules, run_known-Keeps) depth 8
