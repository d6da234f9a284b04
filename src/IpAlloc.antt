-- ===== src/IpAlloc.antt =====
-- apps/api/src/common/ip-alloc.util.ts: choosing the address of a new peer. JavaScript's `Number`
-- is an argument; the shifts and masks of 32-bit numbers are written as powers of two.
pub mod Allocation
pub mod Fresh
pub mod Hosts
pub mod Samples
mod Tests
use fredoomeaxima.Common.{
  ℕ, zero, suc, ◌+◌, ◌-◌, ◌*◌, ◌/◌, ◌%◌, ◌^◌, Bool, true, false, not, ◌&&◌, ◌||◌, List, [], ◌∷◌,
  map, Option, none, some, ltb, ◌==◌, if◌then◌else◌, length, any,
}
use fredoomeaxima.Text.{Text, split, join, to_text}
use fredoomeaxima.Exec.{Result, ok, err, internal}

-- What `Number` gives: NaN, a negative number, or the whole part of a number and whether more
-- follows its point.
pub data Number : Type 0 where
  nan negative : Number
  nonnegative : (whole : ℕ) → (has_fraction : Bool) → Number

-- The number above `limit`.
exceeds : ℕ → ℕ → Bool → Bool
exceeds limit whole has_fraction = ltb limit whole || (whole == limit && has_fraction)

-- An octet that passes the test of `ipToInt`; the shifts drop its fraction.
octet : Number → Option ℕ
unfolding exceeds
octet Number.nan = none
octet Number.negative = none
octet (Number.nonnegative whole has_fraction) =
    if exceeds 255 whole has_fraction then none else some whole

octets_from : ℕ → List Number → Option ℕ
octets_from value [] = some value
octets_from value (n ∷ ns) = elim (octet n) [
  | none ↦ none
  | some p ↦ octets_from (value * 256 + p) ns
]

-- The octets are below 256, so that `|` of the shifted octets is their sum.
pub ip_to_int : (Text → Number) → Text → Option ℕ
unfolding octets_from
ip_to_int number ip =
    let parts = split b'.' ip in
    if length parts == 4 then octets_from 0 (map number parts) else none

pub int_to_ip : ℕ → Text
int_to_ip int =
    join b'.'
      (map to_text (int / 16777216 % 256 ∷ int / 65536 % 256 ∷ int / 256 % 256 ∷ int % 256 ∷ []))

pub record SubnetInfo : Type 0 where
  pub network : ℕ
  pub broadcast : ℕ

-- `32 - prefix` as a shift takes it, without its fraction.
host_bits : ℕ → Bool → ℕ
host_bits whole true = 31 - whole
host_bits whole false = 32 - whole

subnet_of : ℕ → ℕ → SubnetInfo
subnet_of ip bits =
    let network = ip - ip % 2 ^ bits in
    record { network = network; broadcast = network + (2 ^ bits - 1) }

parse_prefix : Number → Option ℕ
unfolding exceeds host_bits
parse_prefix Number.nan = none
parse_prefix Number.negative = none
parse_prefix (Number.nonnegative whole has_fraction) =
    if exceeds 32 whole has_fraction then none else some (host_bits whole has_fraction)

-- `const [ip, prefixStr] = cidr.split('/')`; a missing prefix is NaN.
parse_pieces : (Text → Number) → List Text → Option SubnetInfo
unfolding parse_prefix subnet_of
parse_pieces number [] = none
parse_pieces number (ip ∷ []) = none
parse_pieces number (ip ∷ prefix ∷ rest) = elim (parse_prefix (number prefix)) [
  | none ↦ none
  | some bits ↦ elim (ip_to_int number ip) [ none ↦ none | some int ↦ some (subnet_of int bits) ]
]

pub parse_subnet : (Text → Number) → Text → Option SubnetInfo
unfolding parse_pieces
parse_subnet number cidr = parse_pieces number (split b'/' cidr)

-- `ip.split('/')[0]`
first_piece : List Text → Text
first_piece [] = []
first_piece (t ∷ ts) = t

pub address_of : (Text → Number) → Text → Option ℕ
unfolding first_piece
address_of number ip = ip_to_int number (first_piece (split b'/' ip))

pub addresses_of : (Text → Number) → List Text → Option (List ℕ)
addresses_of number [] = some []
addresses_of number (ip ∷ ips) = elim (address_of number ip) [
  | none ↦ none
  | some int ↦ elim (addresses_of number ips) [ none ↦ none | some ints ↦ some (int ∷ ints) ]
]

-- The loop over the candidates; it runs `broadcast - candidate` rounds at most.
pub first_free : ℕ → ℕ → List ℕ → Option ℕ
first_free zero candidate used = none
first_free (suc rounds) candidate used =
    let rest = first_free rounds (candidate + 1) used in
    if any (λ u. u == candidate) used then rest else some candidate

-- Malformed addresses and an exhausted pool are errors.
pub next_free_int : (Text → Number) → Text → Text → List Text → Option ℕ
unfolding first_free addresses_of
next_free_int number subnet server_address used_ips = elim (parse_subnet number subnet) [
  | none ↦ none
  | some s ↦ elim (address_of number server_address) [
    | none ↦ none
    | some server ↦ elim (addresses_of number used_ips) [
      | none ↦ none
      | some used ↦ first_free (s.broadcast - (s.network + 1)) (s.network + 1) (server ∷ used)
    ]
  ]
]

pub next_free_ip : (Text → Number) → Text → Text → List Text → Result Text
next_free_ip number subnet server_address used_ips =
    elim (next_free_int number subnet server_address used_ips) [
      | none ↦ err (internal "Invalid address or pool exhausted")
      | some int ↦ ok (int_to_ip int)
    ]

pub pool_capacity : (Text → Number) → Text → Option ℕ
pool_capacity number subnet = elim (parse_subnet number subnet) [
  | none ↦ none
  | some s ↦ some (s.broadcast - s.network - 1 - 1)
]
