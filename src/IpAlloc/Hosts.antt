-- ===== src/IpAlloc/Hosts.antt =====
-- The addresses that `nextFreeIp` gives out: host addresses of the tunnel's subnet.
use fredoomeaxima.Common.{
  ℕ, ◌≡◌, ◌≢◌, ◌<◌, ◌+◌, ◌-◌, sym, ◌∙◌, false, List, ◌∷◌, Option-cases, some, inl, inr, arith, any,
}
use fredoomeaxima.Text.{Text}
use fredoomeaxima.Exec.{ok}
use fredoomeaxima.IpAlloc.{
  Number, SubnetInfo, parse_subnet, address_of, int_to_ip, next_free_ip, next_free_int,
}
use fredoomeaxima.IpAlloc.Allocation.{
  occurs, next_free_int-Parsed, next_free_int-parsed, first_free-IsFirstFree,
}

-- The settings of the tunnel, and how numbers are read.
pub record Tunnel : Type 0 where
  pub number : Text → Number
  pub subnet : Text
  pub server_address : Text

-- A host address of the tunnel's subnet, other than the server's own.
pub record IsHost (t : Tunnel) (ip : Text) : Type 0 where
  pub info : SubnetInfo
  pub server : ℕ
  pub value : ℕ
  pub subnet_ok : parse_subnet t.number t.subnet ≡ some info
  pub server_ok : address_of t.number t.server_address ≡ some server
  pub named : ip ≡ int_to_ip value
  pub above : info.network < value
  pub below : value < info.broadcast
  pub other : value ≢ server

not_occurs : (v u : ℕ) (us : List ℕ) → occurs v (u ∷ us) ≡ false → v ≢ u
unfolding any
not_occurs v u us free same = ground (arith, free, same)

pub taken_IsHost :
    (t : Tunnel) (used : List Text) (ip : Text)
    → next_free_ip t.number t.subnet t.server_address used ≡ ok ip
    → IsHost t ip
unfolding next_free_ip
taken_IsHost t used ip h =
    elim (Option-cases (next_free_int t.number t.subnet t.server_address used)) [
      | inl e ↦ absurd (ground arith)
      | inr c ↦
          let p = next_free_int-Parsed t.number t.subnet t.server_address used c.0 c.1 in
          let low = p.info.network + 1 in
          let first =
            first_free-IsFirstFree (p.info.broadcast - low) low c.0 (p.server ∷ p.used)
              (sym (next_free_int-parsed t.number t.subnet t.server_address used p) ∙ c.1) in
          record {
            info = p.info;
            server = p.server;
            value = c.0;
            subnet_ok = p.subnet_ok;
            server_ok = p.server_ok;
            named = ground arith;
            above = omega (arith, first.low);
            below = omega (arith, first.low, first.high);
            other = not_occurs c.0 p.server p.used first.free;
          }
    ]
