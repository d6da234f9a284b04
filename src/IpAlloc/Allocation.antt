-- ===== src/IpAlloc/Allocation.antt =====
-- Which address `nextFreeIp` takes.
use fredoomeaxima.Common.{
  ℕ, zero, suc, ◌+◌, ◌-◌, ◌≤◌, ◌<◌, ◌≡◌, refl, subst, Bool, true, false, List, ◌∷◌, none, some,
  arith, ◌==◌, ==_iff, any, Bool-cases, Option-cases, inl, inr, ◌⊎◌,
}
use fredoomeaxima.Text.{Text}
use fredoomeaxima.Exec.{ok, err, internal, Error}
use fredoomeaxima.IpAlloc.{
  Number, SubnetInfo, int_to_ip, parse_subnet, address_of, addresses_of, first_free, next_free_int,
  next_free_ip,
}

-- The number occurs in the list.
abbrev pub occurs : ℕ → List ℕ → Bool
occurs n used = any (λ u. u == n) used

-- A candidate of at least `from` that is free, and before which all are in use.
pub record IsFirstFree (from limit : ℕ) (used : List ℕ) (c : ℕ) : Type 0 where
  pub low : from ≤ c
  pub high : c < limit
  pub free : occurs c used ≡ false
  pub first : (n : ℕ) → from ≤ n → n < c → occurs n used ≡ true

pub first_free-IsFirstFree :
    (rounds from c : ℕ) (used : List ℕ)
    → first_free rounds from used ≡ some c
    → IsFirstFree from (from + rounds) used c
unfolding first_free
first_free-IsFirstFree zero from c used h = absurd (ground arith)
first_free-IsFirstFree (suc rounds) from c used h = elim (Bool-cases (occurs from used)) [
  | inl taken ↦
      let rest = first_free-IsFirstFree rounds (from + 1) c used (rw taken at h) in
      record {
        low = omega (arith, rest.low);
        high = omega (arith, rest.high);
        free = rest.free;
        first = λ n low below. elim (Bool-cases (from == n)) [
          | inl same ↦ subst (λ k. occurs k used ≡ true) ((==_iff _ _).0 same) taken
          | inr other ↦ rest.first n (ground arith) below
        ];
      }
  | inr open_yet ↦
      let same : from ≡ c = ground arith in
      record {
        low = omega arith;
        high = omega arith;
        free = subst (λ k. occurs k used ≡ false) same open_yet;
        first = λ n low below. absurd (omega arith);
      }
]

first_free_none :
    (rounds from n : ℕ) (used : List ℕ)
    → first_free rounds from used ≡ none
    → from ≤ n
    → n < from + rounds
    → occurs n used ≡ true
unfolding first_free
first_free_none zero from n used h low high = absurd (omega arith)
first_free_none (suc rounds) from n used h low high = elim (Bool-cases (occurs from used)) [
  | inl taken ↦ elim (Bool-cases (from == n)) [
    | inl same ↦ subst (λ k. occurs k used ≡ true) ((==_iff _ _).0 same) taken
    | inr other ↦
        first_free_none rounds (from + 1) n used (rw taken at h) (ground arith) (omega arith)
  ]
  | inr open_yet ↦ absurd (ground arith)
]

-- What `nextFreeIp` runs on, once its texts are parsed.
pub record Parsed (number : Text → Number) (subnet server_address : Text) (used_ips : List Text)
    : Type 0 where
  pub info : SubnetInfo
  pub server : ℕ
  pub used : List ℕ
  pub subnet_ok : parse_subnet number subnet ≡ some info
  pub server_ok : address_of number server_address ≡ some server
  pub used_ok : addresses_of number used_ips ≡ some used

pub next_free_int-parsed :
    (number : Text → Number) (subnet server_address : Text) (used_ips : List Text)
    (p : Parsed number subnet server_address used_ips)
    → next_free_int number subnet server_address used_ips
      ≡ first_free
          (p.info.broadcast - (p.info.network + 1))
          (p.info.network + 1)
          (p.server ∷ p.used)
unfolding next_free_int
next_free_int-parsed number subnet server_address used_ips p =
    rw (p.subnet_ok, next_free_int) (rw (p.server_ok) (rw (p.used_ok) refl))

pub next_free_int-Parsed :
    (number : Text → Number) (subnet server_address : Text) (used_ips : List Text) (c : ℕ)
    → next_free_int number subnet server_address used_ips ≡ some c
    → Parsed number subnet server_address used_ips
unfolding next_free_int
next_free_int-Parsed number subnet server_address used_ips c h =
    elim (Option-cases (parse_subnet number subnet)) [
      | inl e ↦ absurd (ground arith)
      | inr s ↦ elim (Option-cases (address_of number server_address)) [
        | inl e ↦ absurd (ground arith)
        | inr v ↦ elim (Option-cases (addresses_of number used_ips)) [
          | inl e ↦ absurd (ground arith)
          | inr u ↦ record {
            info = s.0;
            server = v.0;
            used = u.0;
            subnet_ok = s.1;
            server_ok = v.1;
            used_ok = u.1;
          }
        ]
      ]
    ]

-- A host address of the subnet that neither the server nor a peer has, the least there is.
abbrev pub IsLeastHost : SubnetInfo → ℕ → List ℕ → ℕ → Type 0
IsLeastHost info server used c = IsFirstFree (info.network + 1) info.broadcast (server ∷ used) c

-- Where the texts parse, the address taken is the least host address of the subnet that neither
-- the server nor a peer has; there is an error only when all of them are in use.
pub next_free_ip_least :
    (number : Text → Number) (subnet server_address : Text) (used_ips : List Text)
    (p : Parsed number subnet server_address used_ips)
    → ((c : ℕ) × (next_free_ip number subnet server_address used_ips ≡ ok (int_to_ip c))
        × IsLeastHost p.info p.server p.used c)
      ⊎ (((e : Error) × (next_free_ip number subnet server_address used_ips ≡ err e))
          × ((n : ℕ)
              → p.info.network < n
              → n < p.info.broadcast
              → occurs n (p.server ∷ p.used) ≡ true))
unfolding next_free_ip
next_free_ip_least number subnet server_address used_ips p =
    let low = p.info.network + 1 in
    let rounds = p.info.broadcast - low in
    let all_used = p.server ∷ p.used in
    let run = next_free_int-parsed number subnet server_address used_ips p in
    elim (Option-cases (first_free rounds low all_used)) [
      | inl none_left ↦ inr (
        (internal "Invalid address or pool exhausted", rw (run, next_free_ip) (rw none_left refl)),
        λ n above below.
            first_free_none rounds low n all_used none_left (omega arith) (omega arith),
      )
      | inr found ↦
          let first = first_free-IsFirstFree rounds low found.0 all_used found.1 in
          inl (
            found.0,
            rw (run, next_free_ip) (rw found.1 refl),
            record {
              low = first.low;
              high = omega (arith, first.low, first.high);
              free = first.free;
              first = first.first;
            },
          )
    ]
