-- ===== src/Cidr/Notation.antt =====
-- CIDR notation: printing and parsing blocks.
use native.Mathlib.Nat.{pow-suc, add-zero, add-suc}
use fredoomeaxima.Common.{
  ℕ, zero, suc, ◌+◌, ◌-◌, ◌*◌, ◌%◌, ◌^◌, ◌≤◌, ◌<◌, ◌≡◌, refl, true, ◌∷◌, ◌++◌, some, arith, all,
  all-append, Option-cases, inl, inr, take, drop, take-length-append, drop-length-append, ap, sym,
  subst, ◌∙◌,
}
use fredoomeaxima.Text.{Text, codes, to_number, to_text, is_space, trim, index_of}
use fredoomeaxima.Text.Laws.{free_of, spaceless, trim_free, index_of-append}
use fredoomeaxima.Cidr.{ip_to_int, int_to_ip, ParsedCidr, parse_parts, parse_cidr, cidr_text}
use fredoomeaxima.Cidr.Octets.{
  octet_text, ip_to_int-int_to_ip, ip_to_int-lt, int_to_ip-slashless, int_to_ip-spaceless,
  prefix_digits,
}

pub pow_pos : (k : ℕ) → 0 < 2 ^ k
pow_pos zero = omega arith
pow_pos (suc k) = rw pow-suc (omega (arith, pow_pos k))

pub pow_add : (d k : ℕ) → 2 ^ (d + k) ≡ 2 ^ d * 2 ^ k
pow_add d zero = rw add-zero (omega arith)
pow_add d (suc k) = rw (add-suc, pow-suc, pow-suc) (omega (arith, pow_add d k))

-- The address space is a whole number of blocks of each size.
pub pow_blocks : (k : ℕ) → k ≤ 32 → 2 ^ k * 2 ^ (32 - k) ≡ 2 ^ 32
pow_blocks k h = sym (pow_add k (32 - k)) ∙ ap (λ n. 2 ^ n) {y = 32} (omega arith)

-- A block in canonical form: its base is a multiple of its size, and it ends within the addresses.
pub record IsCanonical (c : ParsedCidr) : Type 0 where
  pub prefix_le : c.prefix ≤ 32
  pub aligned : c.base % 2 ^ (32 - c.prefix) ≡ 0
  pub within : c.base + 2 ^ (32 - c.prefix) ≤ 2 ^ 32

mask_aligned : (ip s : ℕ) → 0 < s → (ip - ip % s) % s ≡ 0
mask_aligned ip s h = grind arith

pub mask_within : (ip s q : ℕ) → 0 < s → ip < q * s → (ip - ip % s) + s ≤ q * s
mask_within ip s q h lt = grind arith

masked-IsCanonical :
    (ip prefix : ℕ)
    → ip < 2 ^ 32
    → prefix ≤ 32
    → IsCanonical (record { base = ip - ip % 2 ^ (32 - prefix); prefix = prefix })
masked-IsCanonical ip prefix lt le =
    let e = pow_blocks prefix le in
    record {
      prefix_le = le;
      aligned = mask_aligned ip (2 ^ (32 - prefix)) (pow_pos (32 - prefix));
      within = omega (
        arith,
        e,
        mask_within ip (2 ^ (32 - prefix)) (2 ^ prefix) (pow_pos (32 - prefix)) (omega (arith, e)),
      );
    }

parse_parts-IsCanonical :
    (ip_part prefix_part : Text) (c : ParsedCidr)
    → parse_parts ip_part prefix_part ≡ some c
    → IsCanonical c
unfolding parse_parts
parse_parts-IsCanonical ip_part prefix_part c h = elim (Option-cases (ip_to_int ip_part)) [
  | inl e ↦ absurd (ground arith)
  | inr (ip, e) ↦
      let bound = ip_to_int-lt ip_part ip e in
      let canonical = masked-IsCanonical ip (to_number prefix_part) bound (ground arith) in
      subst IsCanonical (ground arith) canonical
]

-- What parses is in canonical form.
pub parse_cidr-IsCanonical : (t : Text) (c : ParsedCidr) → parse_cidr t ≡ some c → IsCanonical c
unfolding parse_cidr
parse_cidr-IsCanonical t c h = elim (Option-cases (index_of b'/' (trim t))) [
  | inl e ↦ parse_parts-IsCanonical (trim t) (codes "32") c (ground arith)
  | inr (n, e) ↦ parse_parts-IsCanonical (take n (trim t)) (drop (suc n) (trim t)) c (ground arith)
]

parse_parts-texts :
    (c : ParsedCidr) → IsCanonical c → parse_parts (int_to_ip c.base) (to_text c.prefix) ≡ some c
unfolding parse_parts
parse_parts-texts c h =
    let address = ip_to_int-int_to_ip c.base (omega (arith, h, pow_pos (32 - c.prefix))) in
    let digits = prefix_digits c.prefix h.prefix_le in
    let value = (octet_text c.prefix (omega (arith, h))).value in
    ground (arith, h.prefix_le, h.aligned)

cidr_text-spaceless : (base prefix : ℕ) → prefix ≤ 32 → spaceless (cidr_text base prefix) ≡ true
unfolding cidr_text
cidr_text-spaceless base prefix h =
    let octets = int_to_ip-spaceless base in
    let digits = (octet_text prefix (omega arith)).solid in
    rw all-append (unfold all is_space in ground arith)

parse_cidr_slash :
    (t ip_part prefix_part : Text)
    → spaceless t ≡ true
    → free_of b'/' ip_part ≡ true
    → t ≡ ip_part ++ b'/' ∷ prefix_part
    → parse_cidr t ≡ parse_parts ip_part prefix_part
unfolding parse_cidr
parse_cidr_slash t ip_part prefix_part solid slashless e =
    let slash = index_of-append b'/' ip_part prefix_part slashless in
    let before = take-length-append ip_part (b'/' ∷ prefix_part) in
    let after = drop-length-append ip_part prefix_part b'/' in ground (arith, trim_free t solid)

-- A canonical block is what its printed form parses to.
pub parse_cidr-cidr_text :
    (c : ParsedCidr) → IsCanonical c → parse_cidr (cidr_text c.base c.prefix) ≡ some c
unfolding cidr_text
parse_cidr-cidr_text c h =
    parse_cidr_slash (cidr_text c.base c.prefix) (int_to_ip c.base) (to_text c.prefix)
      (cidr_text-spaceless c.base c.prefix h.prefix_le) (int_to_ip-slashless c.base) refl
    ∙ parse_parts-texts c h
