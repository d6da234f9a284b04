-- ===== src/Servers/Registration.antt =====
-- Registration by an install token, and heartbeats.
use fredoomeaxima.Common.{
  ℕ, ◌≡◌, ◌≢◌, ◌⊎◌, refl, ap, sym, subst, ◌∙◌, Bool, true, false, Option, none, some, arith, ◌==◌,
  ==-refl, ==_iff, find-holds, All, All-find, if◌then◌else◌, Option-cases, Bool-cases, inl, inr,
}
use fredoomeaxima.Exec.{
  modify, Error, Result, ok, err, not_found, bad_request, or_throw, throw_if, pure, continue, ◌>>◌,
}
use fredoomeaxima.Database.{Db, Server, ServerStatus}
use fredoomeaxima.Database.Tables.{All-update_where, find-update_where}
use fredoomeaxima.Servers.{
  Crypto, find_server, update_server, get_raw, differs, is_unreachable, recovered, agent_token,
  register, heartbeat,
}

-- The states that only an admin gives or takes away, once a server is registered.
unfoldable pub is_controlled : ServerStatus → Bool
is_controlled ServerStatus.pending = true
is_controlled ServerStatus.disabled = true
is_controlled ServerStatus.maintenance = true
is_controlled ServerStatus.active = false
is_controlled ServerStatus.unreachable = false

-- The server `id` has used its install token, and is in the state `status`.
abbrev pub HeldAs : ℕ → ServerStatus → Server → Type 0
HeldAs id status s = s.id ≡ id → (s.status ≡ status) × (s.install_token ≡ none)

abbrev pub registered : ℕ → ℕ → Server → Server
registered now key s = record s {
  server_public_key = some key;
  status = ServerStatus.active;
  registered_at = some now;
  last_heartbeat_at = some now;
  install_token = none;
}

differs-same : {o : Option ℕ} {token : ℕ} → o ≡ some token → differs o token ≡ false
differs-same {o} {token} e = rw e (rw (==-refl token) refl)

differs-none : {o : Option ℕ} (token : ℕ) → o ≡ none → differs o token ≡ true
differs-none token e = rw e refl

pub refuted : ¬ (true ≡ false)
refuted h = ground arith

register_lem :
    (now id token key : ℕ) (s : Server) (db : Db)
    → find_server id db ≡ some s
    → register now id token key db ≡ (
        if differs s.install_token token
        then (err (bad_request "Invalid install token"), db)
        else (ok tt, update_server id (registered now key) db))
unfolding register get_raw
register_lem now id token key s db h = elim (Bool-cases (differs s.install_token token)) [
  | inl e ↦ rw (h, or_throw) (rw e refl)
  | inr e ↦ rw (h, or_throw) (rw e refl)
]

register_refused :
    (now id token key : ℕ) (s : Server) (db : Db)
    → find_server id db ≡ some s
    → differs s.install_token token ≡ true
    → register now id token key db ≡ (err (bad_request "Invalid install token"), db)
register_refused now id token key s db h e = register_lem now id token key s db h ∙ rw e refl

register_done :
    (now id token key : ℕ) (s : Server) (db : Db)
    → find_server id db ≡ some s
    → differs s.install_token token ≡ false
    → register now id token key db ≡ (ok tt, update_server id (registered now key) db)
register_done now id token key s db h e = register_lem now id token key s db h ∙ rw e refl

register_unknown :
    (now id token key : ℕ) (db : Db)
    → find_server id db ≡ none
    → register now id token key db ≡ (err (not_found "Server not found"), db)
unfolding register get_raw
register_unknown now id token key db h = rw (h, or_throw) refl

-- A registration that succeeds leaves the server active under its key with the token used up, and
-- every later registration of that server is refused, whatever its token, and changes nothing.
pub register_once :
    (now id token key later token' key' : ℕ) (s : Server) (db : Db)
    → find_server id db ≡ some s
    → s.install_token ≡ some token
    → let after = update_server id (registered now key) db in
      (register now id token key db ≡ (ok tt, after))
      × (find_server id after ≡ some (registered now key s))
      × (register later id token' key' after ≡ (err (bad_request "Invalid install token"), after))
register_once now id token key later token' key' s db h e =
    let after = update_server id (registered now key) db in
    let found : find_server id after ≡ some (registered now key s) =
      find-update_where (λ r. r.id == id) (λ r. r.id == id) (registered now key) db.servers
        (λ r. refl)
      ∙ rw h (rw (find-holds (λ r. r.id == id) db.servers s h) refl) in
    (
      register_done now id token key s db h (differs-same e),
      found,
      register_lem later id token' key' (registered now key s) after found,
    )

-- Changing the servers called `id'` keeps how another server is held.
pub update-other :
    (id : ℕ) (status : ServerStatus) (id' : ℕ) (f : Server → Server) (db : Db)
    → id ≢ id'
    → ((r : Server) → (f r).id ≡ r.id)
    → All (HeldAs id status) db.servers
    → All (HeldAs id status) (update_server id' f db).servers
update-other id status id' f db n k =
    All-update_where (HeldAs id status) (λ r. r.id == id') f db.servers
      (λ r hit held same. absurd (n (sym same ∙ k r ∙ (==_iff _ _).0 hit)))

pub register-HeldAs :
    (id : ℕ) (status : ServerStatus) (now id' token key : ℕ) (db : Db)
    → All (HeldAs id status) db.servers
    → All (HeldAs id status) (register now id' token key db).1.servers
register-HeldAs id status now id' token key db a = elim (Option-cases (find_server id' db)) [
  | inl h ↦
      subst (λ r. All (HeldAs id status) r.1.servers)
        (sym (register_unknown now id' token key db h)) a
  | inr e ↦ elim (Bool-cases (differs e.0.install_token token)) [
    | inl bad ↦
        subst (λ r. All (HeldAs id status) r.1.servers)
          (sym (register_refused now id' token key e.0 db e.1 bad)) a
    | inr good ↦
        subst (λ r. All (HeldAs id status) r.1.servers)
          (sym (register_done now id' token key e.0 db e.1 good))
          (update-other id status id' (registered now key) db
            (λ same. refuted (sym (differs-none token (used same e.0 e.1)) ∙ good)) (λ r. refl) a)
  ]
]
  where
    used : id ≡ id' → (s : Server) → find_server id' db ≡ some s → s.install_token ≡ none
    used same s h =
        (All-find (HeldAs id status) (λ r. r.id == id') db.servers s a h
          ((==_iff _ _).0 (find-holds (λ r. r.id == id') db.servers s h) ∙ sym same)).1

-- A heartbeat leaves a controlled server's state alone.
recovered-controlled :
    (status : ServerStatus) → is_controlled status ≡ true → recovered status ≡ status
unfolding recovered is_unreachable is_controlled
recovered-controlled ServerStatus.pending c = refl
recovered-controlled ServerStatus.disabled c = refl
recovered-controlled ServerStatus.maintenance c = refl
recovered-controlled ServerStatus.active c = absurd (ground arith)
recovered-controlled ServerStatus.unreachable c = absurd (ground arith)

abbrev beaten : ℕ → Server → Server
beaten now s = record s { last_heartbeat_at = some now; status = recovered s.status }

heartbeat_unknown :
    (crypto : Crypto) (now id token : ℕ) (db : Db)
    → find_server id db ≡ none
    → heartbeat crypto now id token db ≡ (err (not_found "Server not found"), db)
unfolding heartbeat get_raw
heartbeat_unknown crypto now id token db h = rw (h, or_throw) refl

guarded-cases :
    (b : Bool) (e : Error) (f : Db → Db) (db : Db)
    → (((throw_if b e >> modify f) db).1 ≡ db) ⊎ (((throw_if b e >> modify f) db).1 ≡ f db)
guarded-cases true e f db = inl refl
guarded-cases false e f db = inr refl

beat-cases :
    (r : Result (Option ℕ)) (token : ℕ) (e : Error) (f : Db → Db) (db : Db)
    → ((continue r (λ expected. throw_if (differs expected token) e >> modify f) db).1 ≡ db)
      ⊎ ((continue r (λ expected. throw_if (differs expected token) e >> modify f) db).1 ≡ f db)
beat-cases (ok expected) token e f db = guarded-cases (differs expected token) e f db
beat-cases (err x) token e f db = inl refl

-- Reading the token changes nothing.
agent_token-state :
    (crypto : Crypto) (o : Option ℕ) (db : Db)
    → agent_token crypto o db ≡ ((agent_token crypto o db).0, db)
unfolding agent_token
agent_token-state crypto none db = refl
agent_token-state crypto (some c) db = go (crypto.decrypt c)
  where
    go :
        (r : Result ℕ)
        → continue r (λ t. pure (some t)) db ≡ ((continue r (λ t. pure (some t)) db).0, db)
    go (ok t) = refl
    go (err x) = refl

-- A heartbeat either changes nothing or is the update of one server.
heartbeat-cases :
    (crypto : Crypto) (now id token : ℕ) (s : Server) (db : Db)
    → find_server id db ≡ some s
    → ((heartbeat crypto now id token db).1 ≡ db)
      ⊎ ((heartbeat crypto now id token db).1 ≡ update_server id (beaten now) db)
unfolding heartbeat get_raw
heartbeat-cases crypto now id token s db h =
    rw (h, or_throw)
      (rw (agent_token-state crypto s.agent_token_enc db) (beat-cases _ token _ _ db))

pub heartbeat-HeldAs :
    (id : ℕ) (status : ServerStatus) (crypto : Crypto) (now id' token : ℕ) (db : Db)
    → is_controlled status ≡ true
    → All (HeldAs id status) db.servers
    → All (HeldAs id status) (heartbeat crypto now id' token db).1.servers
heartbeat-HeldAs id status crypto now id' token db c a = elim (Option-cases (find_server id' db)) [
  | inl h ↦
      subst (λ r. All (HeldAs id status) r.1.servers)
        (sym (heartbeat_unknown crypto now id' token db h)) a
  | inr e ↦ elim (heartbeat-cases crypto now id' token e.0 db e.1) [
    | inl same ↦ subst (λ d. All (HeldAs id status) d.servers) (sym same) a
    | inr done ↦
        subst (λ d. All (HeldAs id status) d.servers) (sym done)
          (All-update_where (HeldAs id status) (λ r. r.id == id') (beaten now) db.servers
            (λ r hit held own.
              (ap recovered (held own).0 ∙ recovered-controlled status c, (held own).1))
            a)
  ]
]
