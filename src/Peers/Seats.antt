-- ===== src/Peers/Seats.antt =====
-- The addresses of the devices, as the methods of the service leave them.
use fredoomeaxima.Common.{
  ℕ, ◌≡◌, ◌≢◌, ◌⊎◌, refl, sym, ◌∙◌, String, Bool, true, List, [], ◌∷◌, Option, none, some, inl, inr,
  arith, ==-refl, Bool-cases, if◌then◌else◌, filter, All, All-filter, All-map,
}
use fredoomeaxima.Text.{Text}
use fredoomeaxima.Exec.{Result, ok, err}
use fredoomeaxima.Exec.Keeps.{Keeps, keeps_rules}
use fredoomeaxima.Database.{Db, Peer, PeerStatus}
use fredoomeaxima.Database.Tables.{update_where, All-update_where}
use fredoomeaxima.Servers.{peer_is_active}
use fredoomeaxima.IpAlloc.Hosts.{Tunnel, IsHost, taken_IsHost}
use fredoomeaxima.IpAlloc.Fresh.{ReadsOctets}
use fredoomeaxima.Peers.{
  World, Fresh, Created, create, revoke, recreate, admin_delete, load_owned, on_server, new_peer,
  revoked,
}
use fredoomeaxima.Peers.Creation.{create_refused, create-Permission}
use fredoomeaxima.Peers.Limits.{create_fresh_ip}

abbrev pub tunnel_of : World → Tunnel
tunnel_of w = record { number = w.number; subnet = w.subnet; server_address = w.server_address }

-- An active device has a host address, a revoked one has none.
abbrev pub SeatOf : Tunnel → PeerStatus → Option Text → Type 0
SeatOf t PeerStatus.active none = ⊥
SeatOf t PeerStatus.active (some ip) = IsHost t ip
SeatOf t PeerStatus.revoked none = Unit {0}
SeatOf t PeerStatus.revoked (some ip) = ⊥

abbrev pub Seat : Tunnel → Peer → Type 0
Seat t p = SeatOf t p.status p.assigned_ip

-- On one server the two have no address in common.
abbrev pub Apart : Peer → Peer → Type 0
Apart p q =
    q.server_id ≡ p.server_id → (ip : Text) → p.assigned_ip ≡ some ip → q.assigned_ip ≢ some ip

abbrev pub AllApart : List Peer → Type 0
AllApart [] = Unit {0}
AllApart (p ∷ ps) = All (Apart p) ps × AllApart ps

pub record IsSeated (t : Tunnel) (ps : List Peer) : Type 0 where
  pub seats : All (Seat t) ps
  pub apart : AllApart ps

module _ (t : Tunnel) where
  AllApart-filter : (p : Peer → Bool) (ps : List Peer) → AllApart ps → AllApart (filter p ps)
  unfolding filter
  AllApart-filter p [] a = tt
  AllApart-filter p (q ∷ ps) a = elim (Bool-cases (p q)) [
    | inl hit ↦
        rw hit (All-map (λ r h. h.0) _ (All-filter (Apart q) p ps a.0), AllApart-filter p ps a.1)
    | inr miss ↦ rw miss (AllApart-filter p ps a.1)
  ]

  pub IsSeated-filter :
      (p : Peer → Bool) (ps : List Peer) → IsSeated t ps → IsSeated t (filter p ps)
  IsSeated-filter p ps s = record {
    seats = All-map (λ r h. h.0) _ (All-filter (Seat t) p ps s.seats);
    apart = AllApart-filter p ps s.apart;
  }

-- The row stays on its server, and has no address that it did not have.
abbrev Frees : (Peer → Peer) → Type 0
Frees f =
    (p : Peer)
    → ((f p).server_id ≡ p.server_id)
      × ((ip : Text) → (f p).assigned_ip ≡ some ip → p.assigned_ip ≡ some ip)

module _ (q : Peer → Bool) (f : Peer → Peer) (frees : Frees f) where
  freed : (p : Peer) → Peer
  freed p = if q p then f p else p

  Apart-freed : (p r : Peer) → Apart p r → Apart (freed p) (freed r)
  unfolding freed
  Apart-freed p r a same ip h k = elim (Bool-cases (q p)) [
    | inl hit ↦ elim (Bool-cases (q r)) [
      | inl hit' ↦
          a (sym ((frees r).0) ∙ (rw (hit, hit') at same) ∙ (frees p).0) ip
            ((frees p).1 ip (rw hit at h)) ((frees r).1 ip (rw hit' at k))
      | inr miss' ↦
          a ((rw (hit, miss') at same) ∙ (frees p).0) ip ((frees p).1 ip (rw hit at h))
            (rw miss' at k)
    ]
    | inr miss ↦ elim (Bool-cases (q r)) [
      | inl hit' ↦
          a (sym ((frees r).0) ∙ (rw (miss, hit') at same)) ip (rw miss at h)
            ((frees r).1 ip (rw hit' at k))
      | inr miss' ↦ a (rw (miss, miss') at same) ip (rw miss at h) (rw miss' at k)
    ]
  ]

  All-freed :
      (p : Peer) (ps : List Peer) → All (Apart p) ps → All (Apart (freed p)) (update_where q f ps)
  unfolding update_where freed
  All-freed p [] a = tt
  All-freed p (r ∷ ps) a = (Apart-freed p r a.0, All-freed p ps a.1)

  AllApart-freed : (ps : List Peer) → AllApart ps → AllApart (update_where q f ps)
  unfolding update_where freed
  AllApart-freed [] a = tt
  AllApart-freed (p ∷ ps) a = (All-freed p ps a.0, AllApart-freed ps a.1)

  pub IsSeated-update_where :
      (t : Tunnel) (ps : List Peer)
      → ((p : Peer) → Seat t p → Seat t (f p))
      → IsSeated t ps
      → IsSeated t (update_where q f ps)
  IsSeated-update_where t ps seat s = record {
    seats = All-update_where (Seat t) q f ps (λ p hit. seat p) s.seats;
    apart = AllApart-freed ps s.apart;
  }

active_on :
    (server_id : ℕ) (p : Peer)
    → p.server_id ≡ server_id
    → p.status ≡ PeerStatus.active
    → on_server server_id p ≡ true
unfolding peer_is_active
active_on server_id p own up = rw (own, up, ==-refl server_id) refl

Status-cases : (s : PeerStatus) → (s ≡ PeerStatus.active) ⊎ (s ≡ PeerStatus.revoked)
Status-cases PeerStatus.active = inl refl
Status-cases PeerStatus.revoked = inr refl

-- A device that is not active has no address, and an active one another address.
new_Apart :
    (t : Tunnel) (p q : Peer)
    → Seat t q
    → (on_server p.server_id q ≡ true → q.assigned_ip ≢ p.assigned_ip)
    → Apart p q
new_Apart t p q seat fresh same ip h k = elim (Status-cases q.status) [
  | inl up ↦ fresh (active_on p.server_id q same up) (k ∙ sym h)
  | inr down ↦ rw (down, k) at seat
]

all_Apart :
    (t : Tunnel) (p : Peer) (ps : List Peer)
    → All (Seat t) ps
    → All (λ q. on_server p.server_id q ≡ true → q.assigned_ip ≢ p.assigned_ip) ps
    → All (Apart p) ps
all_Apart t p [] seats fresh = tt
all_Apart t p (q ∷ ps) seats fresh =
    (new_Apart t p q seats.0 fresh.0, all_Apart t p ps seats.1 fresh.1)

module _ (world : World) (reads : ReadsOctets world.number) where
  creation_keeps :
      (fresh : Fresh) (now user_id server_id : ℕ) (label : Option String) (replacing : Option ℕ)
      (db : Db) (r : Result Created)
      → (create world fresh now user_id server_id label replacing db).0 ≡ r
      → IsSeated (tunnel_of world) db.peers
      → IsSeated
          (tunnel_of world)
          (create world fresh now user_id server_id label replacing db).1.peers
  unfolding new_peer
  creation_keeps fresh now user_id server_id label replacing db (err e) h s =
      rw (create_refused world fresh now user_id server_id label replacing db e h) s
  creation_keeps fresh now user_id server_id label replacing db (ok created) h s =
      let p = create-Permission world fresh now user_id server_id label replacing db created h in
      let apart =
        create_fresh_ip world fresh now user_id server_id label replacing db created reads h in
      let row = new_peer world fresh user_id server_id label created.assigned_ip in
      rw p.written (record {
        seats = (taken_IsHost (tunnel_of world) _ created.assigned_ip p.ip_taken, s.seats);
        apart = (all_Apart (tunnel_of world) row db.peers s.seats apart, s.apart);
      })

  abbrev Seated : Db → Type 0
  Seated db = IsSeated (tunnel_of world) db.peers

  pub create-IsSeated :
      (fresh : Fresh) (now user_id server_id : ℕ) (label : Option String) (replacing : Option ℕ)
      → Keeps Seated (create world fresh now user_id server_id label replacing)
  create-IsSeated fresh now user_id server_id label replacing = record {
    at = λ db s. creation_keeps fresh now user_id server_id label replacing db _ refl s;
  }

  load_owned-IsSeated : (user_id peer_id : ℕ) → Keeps Seated (load_owned user_id peer_id)
  unfolding load_owned
  load_owned-IsSeated user_id peer_id = search keeps_rules depth 12

  revoked-IsSeated :
      (q : Peer → Bool) (ps : List Peer)
      → IsSeated (tunnel_of world) ps
      → IsSeated (tunnel_of world) (update_where q revoked ps)
  revoked-IsSeated q ps =
      IsSeated-update_where q revoked (λ p. (refl, λ ip h. absurd (ground arith))) (tunnel_of world)
        ps (λ p seat. tt)

  pub revoke-IsSeated : (user_id peer_id : ℕ) → Keeps Seated (revoke user_id peer_id)
  unfolding revoke
  revoke-IsSeated user_id peer_id =
      search (keeps_rules, load_owned-IsSeated, revoked-IsSeated) depth 12

  pub recreate-IsSeated :
      (fresh : Fresh) (now user_id peer_id : ℕ)
      → Keeps Seated (recreate world fresh now user_id peer_id)
  unfolding recreate
  recreate-IsSeated fresh now user_id peer_id =
      search (keeps_rules, load_owned-IsSeated, create-IsSeated, revoke-IsSeated) depth 12

  pub admin_delete-IsSeated : (peer_id : ℕ) → Keeps Seated (admin_delete peer_id)
  unfolding admin_delete
  admin_delete-IsSeated peer_id = search (keeps_rules, IsSeated-filter) depth 12

module _ (t : Tunnel) where
  pub flagged-IsSeated :
      (q : Peer → Bool) (ps : List Peer)
      → IsSeated t ps
      → IsSeated t (update_where q (λ p. record p { needs_update = true }) ps)
  flagged-IsSeated q ps =
      IsSeated-update_where q (λ p. record p { needs_update = true }) (λ p. (refl, λ ip h. h)) t ps
        (λ p seat. seat)
