-- ===== src/Cidr/Blocks.antt =====
-- `rangeToCidrs`: the blocks of a range, and which addresses a list of blocks routes.
use native.Mathlib.Nat.{pow-suc, div-add-mod'}
use native.Mathlib.Numerals.{add-one}
use fredoomeaxima.Common.{
  ℕ, zero, suc, ◌+◌, ◌-◌, ◌*◌, ◌/◌, ◌%◌, ◌^◌, ◌≤◌, ◌<◌, ◌≡◌, Bool, false, ◌&&◌, List, none, some,
  arith, leb, ◌==◌, any, ==_iff, Bool-cases, leb→le, inl, inr, ap, ◌∙◌,
}
use fredoomeaxima.Text.{Text}
use fredoomeaxima.Cidr.{
  ParsedCidr, parse_cidr, cidr_text, cidr_to_range, zeros_from, trailing_zeros, fit, block_bits,
  blocks_from, range_to_cidrs,
}
use fredoomeaxima.Cidr.Notation.{pow_pos, pow_add, IsCanonical, parse_cidr-cidr_text}

abbrev pub in_range : ℕ → ℕ × ℕ → Bool
in_range x r = leb r.0 x && leb x r.1

-- Whether an entry of a route list sends the address `x` into the tunnel.
unfoldable pub routes_entry : ℕ → Text → Bool
routes_entry x raw = elim (parse_cidr raw) [ none ↦ false | some c ↦ in_range x (cidr_to_range c) ]

abbrev pub routes : ℕ → List Text → Bool
routes x = any (routes_entry x)

-- `n` is a multiple of `2 ^ k`.
abbrev IsMultiple : ℕ → ℕ → Type 0
IsMultiple n k = n % 2 ^ k ≡ 0

multiple : (v s : ℕ) → 0 < s → v * s % s ≡ 0
multiple v s h = grind arith

halve :
    (n value count : ℕ) → n ≡ value * 2 ^ count → value % 2 ≡ 0 → n ≡ value / 2 * 2 ^ (count + 1)
halve n value count e even =
    let half : value ≡ value / 2 * 2 = omega arith in
    rw (add-one, pow-suc) (omega (arith, ap (λ (t : ℕ). t * 2 ^ count) half))

zeros_from-IsMultiple :
    (fuel value count n : ℕ) → n ≡ value * 2 ^ count → IsMultiple n (zeros_from fuel value count)
unfolding zeros_from
zeros_from-IsMultiple zero value count n e = rw e (multiple value (2 ^ count) (pow_pos count))
zeros_from-IsMultiple (suc fuel) value count n e = elim (Bool-cases (value % 2 == 0)) [
  | inl even ↦ rw even (
      zeros_from-IsMultiple fuel (value / 2) (count + 1) n
        (halve n value count e ((==_iff _ _).0 even)))
  | inr odd ↦ rw (odd, e) (multiple value (2 ^ count) (pow_pos count))
]

fit-le : (cur end size : ℕ) → cur ≤ end → cur + 2 ^ fit cur end size ≤ end + 1
unfolding fit
fit-le cur end zero h = omega arith
fit-le cur end (suc size) h = ground (arith, fit-le cur end size h)

fit-le-size : (cur end size : ℕ) → fit cur end size ≤ size
unfolding fit
fit-le-size cur end zero = omega arith
fit-le-size cur end (suc size) = ground (arith, fit-le-size cur end size)

multiple_of : (n t q s : ℕ) → 0 < s → t ≡ q * s → n % t ≡ 0 → n % s ≡ 0
multiple_of n t q s h e m =
    let parts = div-add-mod' n t in
    let whole : n ≡ n / t * q * s = omega (arith, ap (λ u. n / t * u) e) in
    rw whole (multiple (n / t * q) s h)

IsMultiple-mono : (n k j : ℕ) → k ≤ j → IsMultiple n j → IsMultiple n k
IsMultiple-mono n k j h m =
    let split : 2 ^ j ≡ 2 ^ (j - k) * 2 ^ k =
      ap (λ t. 2 ^ t) {x = j} {y = j - k + k} (omega arith) ∙ pow_add (j - k) k in
    multiple_of n (2 ^ j) (2 ^ (j - k)) (2 ^ k) (pow_pos k) split m

zeros_from-le :
    (fuel value count n : ℕ)
    → n ≡ value * 2 ^ count
    → 0 < value
    → 2 ^ zeros_from fuel value count ≤ n
unfolding zeros_from
zeros_from-le zero value count n e h = rw e (grind (arith, pow_pos count))
zeros_from-le (suc fuel) value count n e h = elim (Bool-cases (value % 2 == 0)) [
  | inl even ↦
      let e2 = (==_iff _ _).0 even in
      rw even
        (zeros_from-le fuel (value / 2) (count + 1) n (halve n value count e e2) (omega arith))
  | inr odd ↦ rw (odd, e) (grind (arith, pow_pos count))
]

pow_mono : (k j : ℕ) → k ≤ j → 2 ^ k ≤ 2 ^ j
pow_mono k j h =
    let split : 2 ^ j ≡ 2 ^ (j - k) * 2 ^ k =
      ap (λ t. 2 ^ t) {x = j} {y = j - k + k} (omega arith) ∙ pow_add (j - k) k in
    rw split (grind (arith, pow_pos (j - k)))

trailing_zeros-le : (n : ℕ) → 0 < n → n < 2 ^ 32 → trailing_zeros n ≤ 32
unfolding trailing_zeros
trailing_zeros-le n h lt = elim (Bool-cases (leb (zeros_from n n 0) 32)) [
  | inl le ↦ leb→le _ _ le
  | inr gt ↦ absurd (
      omega (
        arith,
        zeros_from-le n n 0 n (omega arith) h,
        pow_mono 32 (zeros_from n n 0) (ground arith),
      ))
]

-- What a round of `rangeToCidrs` takes: an aligned block that does not pass the end.
record Fits (cur end : ℕ) : Type 0 where
  size_le : block_bits cur end ≤ 32
  ends : cur + 2 ^ block_bits cur end ≤ end + 1
  aligned : cur % 2 ^ block_bits cur end ≡ 0

Fits-of_bits :
    (cur end bits : ℕ)
    → block_bits cur end ≡ fit cur end bits
    → bits ≤ 32
    → cur % 2 ^ bits ≡ 0
    → cur ≤ end
    → Fits cur end
Fits-of_bits cur end bits e le m h =
    let below = fit-le-size cur end bits in
    record {
      size_le = omega arith;
      ends = rw e (fit-le cur end bits h);
      aligned = rw e (IsMultiple-mono cur (fit cur end bits) bits below m);
    }

block_bits-Fits : (cur end : ℕ) → cur ≤ end → end < 2 ^ 32 → Fits cur end
unfolding block_bits
block_bits-Fits cur end h lt = elim (Bool-cases (cur == 0)) [
  | inl e ↦ Fits-of_bits cur end 32 (rw e) (omega arith) (ground arith) h
  | inr e ↦
      let multiple = zeros_from-IsMultiple cur cur 0 cur (omega arith) in
      Fits-of_bits cur end (trailing_zeros cur) (rw e)
        (trailing_zeros-le cur (ground arith) (omega arith)) (unfold trailing_zeros in multiple) h
]

routes_entry-cidr_text :
    (x : ℕ) (c : ParsedCidr)
    → IsCanonical c
    → routes_entry x (cidr_text c.base c.prefix) ≡ in_range x (cidr_to_range c)
unfolding routes_entry
routes_entry-cidr_text x c h = ground (arith, parse_cidr-cidr_text c h)

routes_block :
    (x cur size : ℕ)
    → size ≤ 32
    → cur % 2 ^ size ≡ 0
    → cur + 2 ^ size ≤ 2 ^ 32
    → routes_entry x (cidr_text cur (32 - size)) ≡ in_range x (cur, cur + 2 ^ size - 1)
unfolding cidr_to_range
routes_block x cur size le m within =
    let back : 32 - (32 - size) ≡ size = omega arith in
    routes_entry-cidr_text x (record { base = cur; prefix = 32 - size })
      (record { prefix_le = omega arith; aligned = rw back m; within = rw back within })
    ∙ rw back

blocks_from-routes :
    (fuel cur end x : ℕ)
    → end < 2 ^ 32
    → suc end ≤ fuel + cur
    → routes x (blocks_from fuel cur end) ≡ in_range x (cur, end)
unfolding blocks_from any
blocks_from-routes zero cur end x lt enough = ground arith
blocks_from-routes (suc fuel) cur end x lt enough = elim (Bool-cases (leb cur end)) [
  | inl more ↦
      let size = block_bits cur end in
      let f : Fits cur end = block_bits-Fits cur end (leb→le _ _ more) lt in
      let pos = pow_pos size in
      let ih = blocks_from-routes fuel (cur + 2 ^ size) end x lt (omega arith) in
      let block = routes_block x cur size f.size_le f.aligned (omega (arith, f.ends)) in
      rw more (ground (arith, f.ends))
  | inr over ↦ rw over (ground arith)
]

-- The blocks of a range of 32-bit addresses route exactly the addresses of the range.
pub range_to_cidrs-routes :
    (s e x : ℕ) → e < 2 ^ 32 → routes x (range_to_cidrs s e) ≡ in_range x (s, e)
unfolding range_to_cidrs
range_to_cidrs-routes s e x lt = blocks_from-routes (suc e - s) s e x lt (omega arith)
