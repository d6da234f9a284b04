-- ===== src/Health/Control.antt =====
-- The states that only an admin sets, under registrations, heartbeats, checks and watchdog runs.
use fredoomeaxima.Common.{
  ℕ, ◌≡◌, refl, ap, sym, subst, ◌∙◌, Bool, true, false, not, ◌&&◌, &&-true, List, [], ◌∷◌, Option,
  arith, ◌==◌, filter, map, All, All-find, All-filter, All-map, Option-cases, Bool-cases, inl, inr,
  ◌⊎◌,
}
use Prim.Native.String.{String}
use fredoomeaxima.Exec.{ok, bind_keeps}
use fredoomeaxima.Database.{Db, Server, ServerStatus}
use fredoomeaxima.Servers.{
  Crypto, find_server, update_server, server_is_active, is_unreachable, register, heartbeat,
}
use fredoomeaxima.Servers.Registration.{
  HeldAs, refuted, update-other, register-HeldAs, heartbeat-HeldAs, is_controlled,
}
use fredoomeaxima.Health.{
  Probe, is_healthy, is_exempt, set_status, record_check, apply_status_transition, check_known,
  check_server, check_each, check_all, is_checked, is_stale, flag_each, heartbeat_watchdog,
}

-- What a check does to the other servers is nothing, and it never touches a controlled one.
transition_controlled :
    (healthy : Bool) (service : Option String) (db : Db) (s : Server) (st : ServerStatus)
    → is_controlled st ≡ true
    → apply_status_transition (set_status st s) healthy service db ≡ (ok [], db)
unfolding apply_status_transition is_controlled server_is_active is_unreachable
transition_controlled true service db s ServerStatus.pending c = refl
transition_controlled false service db s ServerStatus.pending c = refl
transition_controlled true service db s ServerStatus.disabled c = refl
transition_controlled false service db s ServerStatus.disabled c = refl
transition_controlled true service db s ServerStatus.maintenance c = refl
transition_controlled false service db s ServerStatus.maintenance c = refl
transition_controlled healthy service db s ServerStatus.active c = absurd (ground arith)
transition_controlled healthy service db s ServerStatus.unreachable c = absurd (ground arith)

transition-cases :
    (s : Server) (healthy : Bool) (service : Option String) (db : Db)
    → ((apply_status_transition s healthy service db).1 ≡ db)
      ⊎ ((st : ServerStatus) × ((apply_status_transition s healthy service db).1
            ≡ update_server s.id (set_status st) db))
unfolding apply_status_transition
transition-cases s healthy service db =
    elim (Bool-cases (not healthy && server_is_active s.status)) [
      | inl a ↦ inr (ServerStatus.unreachable, rw a refl)
      | inr a ↦ elim (Bool-cases (healthy && is_unreachable s.status)) [
        | inl b ↦ inr (ServerStatus.active, rw (a, b) refl)
        | inr b ↦ inl (rw (a, b) refl)
      ]
    ]

-- The rows of the servers, each as `HeldAs` says.
abbrev pub Held : ℕ → ServerStatus → Db → Type 0
Held id status db = All (HeldAs id status) db.servers

transition-Held :
    (id : ℕ) (status : ServerStatus) (s : Server) (healthy : Bool) (service : Option String)
    (db : Db)
    → is_controlled status ≡ true
    → HeldAs id status s
    → Held id status db
    → Held id status (apply_status_transition s healthy service db).1
transition-Held id status s healthy service db c held a =
    elim (Bool-cases (is_controlled s.status)) [
      | inl still ↦
          subst (λ r. Held id status r.1)
            (sym (transition_controlled healthy service db s s.status still)) a
      | inr free ↦ elim (transition-cases s healthy service db) [
        | inl same ↦ subst (Held id status) (sym same) a
        | inr moved ↦ subst (Held id status) (sym moved.1) (
            update-other id status s.id (set_status moved.0) db
              (λ own. refuted (sym c ∙ sym (ap is_controlled (held (sym own)).0) ∙ free))
              (λ r. refl) a)
      ]
    ]

check_server-Held :
    (id : ℕ) (status : ServerStatus) (now id' : ℕ) (p : Probe) (db : Db)
    → is_controlled status ≡ true
    → Held id status db
    → Held id status (check_server now id' p db).1
unfolding check_server check_known record_check
check_server-Held id status now id' p db c a = elim (Option-cases (find_server id' db)) [
  | inl h ↦ rw h a
  | inr e ↦ elim (Bool-cases (is_exempt e.0.status)) [
    | inl exempt ↦ rw (e.1, exempt) a
    | inr checked ↦
        rw (e.1, checked)
          (transition-Held id status e.0 (is_healthy p) _ (record_check now e.0 p db) c
            (All-find (HeldAs id status) (λ r. r.id == id') db.servers e.0 a e.1) a)
  ]
]

check_each-Held :
    (id : ℕ) (status : ServerStatus) (now : ℕ) (probe : ℕ → Probe) (ids : List ℕ) (db : Db)
    → is_controlled status ≡ true
    → Held id status db
    → Held id status (check_each now probe ids db).1
unfolding check_each
check_each-Held id status now probe [] db c a = a
check_each-Held id status now probe (i ∷ is) db c a =
    bind_keeps (Held id status) (check_server now i (probe i)) _ db
      (check_server-Held id status now i (probe i) db c a)
      (λ alerts t b.
        bind_keeps (Held id status) (check_each now probe is) _ t
          (check_each-Held id status now probe is t c b) (λ more u d. d))

check_all-Held :
    (id : ℕ) (status : ServerStatus) (now : ℕ) (probe : ℕ → Probe) (db : Db)
    → is_controlled status ≡ true
    → Held id status db
    → Held id status (check_all now probe db).1
unfolding check_all
check_all-Held id status now probe db =
    check_each-Held id status now probe (map (λ s. s.id) (filter is_checked db.servers)) db

flag_each-Held :
    (id : ℕ) (status : ServerStatus) (stale : List Server) (db : Db)
    → is_controlled status ≡ true
    → All (λ s. HeldAs id status s × (is_controlled s.status ≡ false)) stale
    → Held id status db
    → Held id status (flag_each stale db).1
unfolding flag_each
flag_each-Held id status [] db c hs a = a
flag_each-Held id status (s ∷ stale) db c hs a =
    bind_keeps (Held id status) (flag_each stale) _
      (update_server s.id (set_status ServerStatus.unreachable) db)
      (flag_each-Held id status stale _ c hs.1 (
        update-other id status s.id (set_status ServerStatus.unreachable) db
          (λ own. refuted (sym c ∙ sym (ap is_controlled (hs.0.0 (sym own)).0) ∙ hs.0.1))
          (λ r. refl) a))
      (λ more u d. d)

active-free : (st : ServerStatus) → server_is_active st ≡ true → is_controlled st ≡ false
unfolding server_is_active is_controlled
active-free ServerStatus.active h = refl
active-free ServerStatus.unreachable h = refl
active-free ServerStatus.pending h = absurd (ground arith)
active-free ServerStatus.disabled h = absurd (ground arith)
active-free ServerStatus.maintenance h = absurd (ground arith)

stale-free : (now : ℕ) (s : Server) → is_stale now s ≡ true → is_controlled s.status ≡ false
unfolding is_stale
stale-free now s h = active-free s.status (&&-true (server_is_active s.status) _ h).0

heartbeat_watchdog-Held :
    (id : ℕ) (status : ServerStatus) (now : ℕ) (db : Db)
    → is_controlled status ≡ true
    → Held id status db
    → Held id status (heartbeat_watchdog now db).1
unfolding heartbeat_watchdog
heartbeat_watchdog-Held id status now db c a =
    flag_each-Held id status (filter (is_stale now) db.servers) db c
      (All-map (λ s h. (h.0, stale-free now s h.1)) _
        (All-filter (HeldAs id status) (is_stale now) db.servers a))
      a

-- What happens to the servers without an admin: calls of the agents, and the jobs' runs.
pub data Event : Type 0 where
  registers : (now server_id install_token server_public_key : ℕ) → Event
  beats : (now server_id token : ℕ) → Event
  checks : ℕ → (ℕ → Probe) → Event
  watches : ℕ → Event

pub handle : Crypto → Event → Db → Db
handle crypto (Event.registers now id token key) db = (register now id token key db).1
handle crypto (Event.beats now id token) db = (heartbeat crypto now id token db).1
handle crypto (Event.checks now probe) db = (check_all now probe db).1
handle crypto (Event.watches now) db = (heartbeat_watchdog now db).1

-- The states that sequences of events lead to.
pub data Reaches (crypto : Crypto) : Db → Db → Type 0 where
  here : (db : Db) → Reaches crypto db db
  there :
      (before after : Db) (e : Event)
      → Reaches crypto (handle crypto e before) after
      → Reaches crypto before after

handle-Held :
    (id : ℕ) (status : ServerStatus) (crypto : Crypto) (e : Event) (db : Db)
    → is_controlled status ≡ true
    → Held id status db
    → Held id status (handle crypto e db)
unfolding handle
handle-Held id status crypto (Event.registers now i token key) db c a =
    register-HeldAs id status now i token key db a
handle-Held id status crypto (Event.beats now i token) db c a =
    heartbeat-HeldAs id status crypto now i token db c a
handle-Held id status crypto (Event.checks now probe) db c a =
    check_all-Held id status now probe db c a
handle-Held id status crypto (Event.watches now) db c a =
    heartbeat_watchdog-Held id status now db c a

-- A server whose install token is used up and whose state is pending, disabled or maintenance keeps
-- that state and has no token again, through any sequence of registrations, heartbeats, health
-- checks and watchdog runs.
pub controlled_stays :
    (id : ℕ) (status : ServerStatus) (crypto : Crypto) (before after : Db)
    → is_controlled status ≡ true
    → Held id status before
    → Reaches crypto before after
    → Held id status after
controlled_stays id status crypto before after c a (Reaches.here db) = a
controlled_stays id status crypto before after c a (Reaches.there b d e rest) =
    controlled_stays id status crypto _ after c (handle-Held id status crypto e before c a) rest
