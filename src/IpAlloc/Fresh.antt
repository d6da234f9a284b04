-- ===== src/IpAlloc/Fresh.antt =====
-- Addresses as texts: printing one and reading it again, and what that means for the one taken.
use native.Mathlib.Nat.{pow-suc}
use fredoomeaxima.Common.{
  ℕ, suc, ◌+◌, ◌-◌, ◌*◌, ◌/◌, ◌%◌, ◌^◌, ◌≤◌, ◌<◌, ◌≡◌, ◌≢◌, refl, ap, sym, subst, ◌∙◌, true, false,
  List, [], ◌∷◌, map, some, arith, ◌==◌, ==_iff, length, any, All, Bool-cases, Option-cases, inl,
  inr,
}
use fredoomeaxima.Text.{Text, split, join, to_text}
use fredoomeaxima.Text.Laws.{free_of, split_free, split-append}
use fredoomeaxima.Exec.{ok}
use fredoomeaxima.Cidr.Octets.{octet_text, int_to_ip-slashless}
use fredoomeaxima.Cidr.Notation.{mask_within, pow_blocks, pow_pos}
use fredoomeaxima.IpAlloc.{
  Number, SubnetInfo, ip_to_int, int_to_ip, octet, octets_from, exceeds, host_bits, subnet_of,
  parse_prefix, parse_pieces, parse_subnet, first_piece, address_of, addresses_of, next_free_int,
  next_free_ip,
}
use fredoomeaxima.IpAlloc.Allocation.{
  occurs, next_free_int-parsed, next_free_int-Parsed, first_free-IsFirstFree,
}

-- `Number` of a printed octet is the octet.
abbrev pub ReadsOctets : (Text → Number) → Type 0
ReadsOctets number = (n : ℕ) → n < 256 → number (to_text n) ≡ Number.nonnegative n false

later : (v u : ℕ) (us : List ℕ) → occurs v (u ∷ us) ≡ false → occurs v us ≡ false
unfolding any
later v u us free = ground arith

own : (v u : ℕ) (us : List ℕ) → occurs v (u ∷ us) ≡ false → ¬ (some v ≡ some u)
unfolding any
own v u us free e = ground arith

module _ (number : Text → Number) (reads : ReadsOctets number) where
  octet_read : (n : ℕ) → n < 256 → octet (number (to_text n)) ≡ some n
  unfolding octet exceeds
  octet_read n h = rw (reads n h) (ground arith)

  octets_read :
      (value n : ℕ) (ns : List Number)
      → n < 256
      → octets_from value (number (to_text n) ∷ ns) ≡ octets_from (value * 256 + n) ns
  unfolding octets_from
  octets_read value n ns h = rw (octet_read n h, octets_from) refl

  ip_to_int_parts :
      (a b c d : ℕ)
      → a < 256
      → b < 256
      → c < 256
      → d < 256
      → ip_to_int number (join b'.' (map to_text (a ∷ b ∷ c ∷ d ∷ [])))
        ≡ some ((((0 * 256 + a) * 256 + b) * 256 + c) * 256 + d)
  unfolding ip_to_int join
  ip_to_int_parts a b c d ha hb hc hd =
      rw
        (
          split-append b'.' (to_text a) _ (octet_text a ha).dotless,
          split-append b'.' (to_text b) _ (octet_text b hb).dotless,
          split-append b'.' (to_text c) _ (octet_text c hc).dotless,
          split_free b'.' (to_text d) (octet_text d hd).dotless,
        )
        (octets_read 0 a (number (to_text b) ∷ number (to_text c) ∷ number (to_text d) ∷ []) ha
          ∙ octets_read (0 * 256 + a) b (number (to_text c) ∷ number (to_text d) ∷ []) hb
          ∙ octets_read ((0 * 256 + a) * 256 + b) c (number (to_text d) ∷ []) hc
          ∙ octets_read (((0 * 256 + a) * 256 + b) * 256 + c) d [] hd
          ∙ unfold octets_from in refl)

  -- A printed 32-bit address is read back, alone or with a prefix length cut off.
  pub address_of-int_to_ip : (v : ℕ) → v < 2 ^ 32 → address_of number (int_to_ip v) ≡ some v
  unfolding address_of first_piece int_to_ip fredoomeaxima.Cidr.int_to_ip
  address_of-int_to_ip v h =
      let parts =
        ip_to_int_parts (v / 16777216 % 256) (v / 65536 % 256) (v / 256 % 256) (v % 256)
          (omega arith) (omega arith) (omega arith) (omega arith) in
      let slashless : free_of b'/' (int_to_ip v) ≡ true = int_to_ip-slashless v in
      rw (split_free b'/' _ slashless) (parts ∙ ap some (omega arith))

  addresses_of-occurs :
      (v : ℕ) (ips : List Text) (used : List ℕ)
      → v < 2 ^ 32
      → addresses_of number ips ≡ some used
      → occurs v used ≡ false
      → All (λ ip. ip ≢ int_to_ip v) ips
  unfolding addresses_of any
  addresses_of-occurs v [] used lt h free = tt
  addresses_of-occurs v (ip ∷ ips) used lt h free = elim (Option-cases (address_of number ip)) [
    | inl e ↦ absurd (ground arith)
    | inr int ↦ elim (Option-cases (addresses_of number ips)) [
      | inl e ↦ absurd (ground arith)
      | inr ints ↦
          let same : int.0 ∷ ints.0 ≡ used = ground arith in
          let free' : occurs v (int.0 ∷ ints.0) ≡ false =
            subst (λ u. occurs v u ≡ false) (sym same) free in
          (
            λ e.
                own v int.0 ints.0 free'
                  (sym (sym int.1 ∙ ap (address_of number) e ∙ address_of-int_to_ip v lt)),
            addresses_of-occurs v ips ints.0 lt ints.1 (ground arith),
          )
    ]
  ]

octet-lt : (n : Number) (v : ℕ) → octet n ≡ some v → v < 256
unfolding octet exceeds
octet-lt Number.nan v h = absurd (ground arith)
octet-lt Number.negative v h = absurd (ground arith)
octet-lt (Number.nonnegative whole has_fraction) v h = ground arith

octets_from-lt :
    (value : ℕ) (ns : List Number) (v k : ℕ)
    → octets_from value ns ≡ some v
    → value < k
    → v < k * 256 ^ length ns
unfolding octets_from
octets_from-lt value [] v k h lt = ground arith
octets_from-lt value (n ∷ ns) v k h lt = elim (Option-cases (octet n)) [
  | inl e ↦ absurd (ground arith)
  | inr o ↦
      let below = octet-lt n o.0 o.1 in
      let ih : v < k * 256 * 256 ^ length ns =
        octets_from-lt (value * 256 + o.0) ns v (k * 256) (ground arith) (omega arith) in
      rw pow-suc (omega (arith, ih))
]

length-map : (number : Text → Number) (ts : List Text) → length (map number ts) ≡ length ts
length-map number [] = refl
length-map number (t ∷ ts) = ap suc (length-map number ts)

ip_to_int-lt :
    (number : Text → Number) (ip : Text) (v : ℕ) → ip_to_int number ip ≡ some v → v < 2 ^ 32
unfolding ip_to_int
ip_to_int-lt number ip v h = elim (Bool-cases (length (split b'.' ip) == 4)) [
  | inl e ↦
      let bound = octets_from-lt 0 (map number (split b'.' ip)) v 1 (ground arith) (omega arith) in
      let four : length (map number (split b'.' ip)) ≡ 4 =
        length-map number (split b'.' ip) ∙ (==_iff _ _).0 e in
      let sized : v < 1 * 256 ^ 4 = subst (λ n. v < 1 * 256 ^ n) four bound in omega arith
  | inr e ↦ absurd (ground arith)
]

parse_prefix-le : (n : Number) (bits : ℕ) → parse_prefix n ≡ some bits → bits ≤ 32
unfolding parse_prefix exceeds host_bits
parse_prefix-le Number.nan bits h = absurd (ground arith)
parse_prefix-le Number.negative bits h = absurd (ground arith)
parse_prefix-le (Number.nonnegative whole true) bits h = ground arith
parse_prefix-le (Number.nonnegative whole false) bits h = ground arith

subnet_of-lt : (ip bits : ℕ) → ip < 2 ^ 32 → bits ≤ 32 → (subnet_of ip bits).broadcast < 2 ^ 32
unfolding subnet_of
subnet_of-lt ip bits lt le =
    let whole : 2 ^ (32 - bits) * 2 ^ bits ≡ 2 ^ 32 =
      subst (λ n. 2 ^ (32 - bits) * 2 ^ n ≡ 2 ^ 32) {x = 32 - (32 - bits)} {y = bits} (omega arith)
        (pow_blocks (32 - bits) (omega arith)) in
    omega (
      arith,
      whole,
      pow_pos bits,
      mask_within ip (2 ^ bits) (2 ^ (32 - bits)) (pow_pos bits) (omega (arith, whole)),
    )

parse_pieces-lt :
    (number : Text → Number) (ts : List Text) (info : SubnetInfo)
    → parse_pieces number ts ≡ some info
    → info.broadcast < 2 ^ 32
unfolding parse_pieces
parse_pieces-lt number [] info h = absurd (ground arith)
parse_pieces-lt number (ip ∷ []) info h = absurd (ground arith)
parse_pieces-lt number (ip ∷ prefix ∷ rest) info h =
    elim (Option-cases (parse_prefix (number prefix))) [
      | inl e ↦ absurd (ground arith)
      | inr b ↦ elim (Option-cases (ip_to_int number ip)) [
        | inl e ↦ absurd (ground arith)
        | inr i ↦
            let same : subnet_of i.0 b.0 ≡ info = ground arith in
            subst (λ s. s.broadcast < 2 ^ 32) same
              (subnet_of-lt i.0 b.0 (ip_to_int-lt number ip i.0 i.1)
                (parse_prefix-le (number prefix) b.0 b.1))
      ]
    ]

-- Where `Number` reads octets, the address taken differs, as a text, from every address in use.
pub next_free_ip_fresh :
    (number : Text → Number) (subnet server_address : Text) (used_ips : List Text) (ip : Text)
    → ReadsOctets number
    → next_free_ip number subnet server_address used_ips ≡ ok ip
    → All (λ used. used ≢ ip) used_ips
unfolding next_free_ip parse_subnet parse_pieces
next_free_ip_fresh number subnet server_address used_ips ip reads h =
    elim (Option-cases (next_free_int number subnet server_address used_ips)) [
      | inl e ↦ absurd (ground arith)
      | inr c ↦
          let p = next_free_int-Parsed number subnet server_address used_ips c.0 c.1 in
          let low = p.info.network + 1 in
          let first =
            first_free-IsFirstFree (p.info.broadcast - low) low c.0 (p.server ∷ p.used)
              (sym (next_free_int-parsed number subnet server_address used_ips p) ∙ c.1) in
          let bound = parse_pieces-lt number (split b'/' subnet) p.info p.subnet_ok in
          let same : int_to_ip c.0 ≡ ip = ground arith in
          subst (λ t. All (λ used. used ≢ t) used_ips) same
            (addresses_of-occurs number reads c.0 used_ips p.used
              (omega (arith, first.low, first.high, bound)) p.used_ok
              (later c.0 p.server p.used first.free))
    ]
