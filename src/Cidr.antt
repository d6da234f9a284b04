-- ===== src/Cidr.antt =====
-- apps/api/src/common/cidr.util.ts: IPv4 addresses, CIDR blocks, and the lists of them that make a
-- client's routes. A text is a list of code units, `null` is `none`, `[start, end]` is a pair.
pub mod Octets
pub mod Notation
pub mod Blocks
pub mod Merge
pub mod Coverage
pub mod Sanitize
mod Tests
use fredoomeaxima.Common.{
  ℕ, zero, suc, ◌+◌, ◌-◌, ◌*◌, ◌/◌, ◌%◌, ◌^◌, Bool, true, false, ◌&&◌, ◌||◌, List, [], ◌∷◌, ◌++◌,
  map, Option, none, some, ltb, leb, ◌==◌, if◌then◌else◌, length, take, drop, any,
}
use fredoomeaxima.Text.{
  Text, codes, text_eq, trim, index_of, split, join, is_digits, to_number, to_text,
}

abbrev pub max_uint32 : ℕ
max_uint32 = 2 ^ 32

-- The loop of `ipToInt` over the four parts.
parse_octets : ℕ → List Text → Option ℕ
parse_octets value [] = some value
parse_octets value (part ∷ parts) =
    let rest = parse_octets (value * 256 + to_number part) parts in
    if is_digits 3 part then if ltb 255 (to_number part) then none else rest else none

pub ip_to_int : Text → Option ℕ
unfolding parse_octets
ip_to_int ip = let parts = split b'.' ip in if length parts == 4 then parse_octets 0 parts else none

unfoldable pub int_to_ip : ℕ → Text
int_to_ip value = join b'.' (
    map to_text
      (value / 16777216 % 256 ∷ value / 65536 % 256 ∷ value / 256 % 256 ∷ value % 256 ∷ []))

pub record ParsedCidr : Type 0 where
  pub base : ℕ
  pub prefix : ℕ

-- The end of `parseCidr`, once the text is split at its slash.
parse_parts : Text → Text → Option ParsedCidr
parse_parts ip_part prefix_part = elim (ip_to_int ip_part) [
  | none ↦ none
  | some ip ↦
      let prefix = to_number prefix_part in
      let block_size = 2 ^ (32 - prefix) in
      if is_digits 2 prefix_part
      then if ltb 32 prefix
        then none
        else some (record { base = ip - ip % block_size; prefix = prefix })
      else none
]

pub parse_cidr : Text → Option ParsedCidr
parse_cidr input =
    let trimmed = trim input in
    elim (index_of b'/' trimmed) [
      | none ↦ parse_parts trimmed (codes "32")
      | some slash ↦ parse_parts (take slash trimmed) (drop (suc slash) trimmed)
    ]

-- The inclusive range of addresses of a block.
pub cidr_to_range : ParsedCidr → ℕ × ℕ
cidr_to_range c = (c.base, c.base + 2 ^ (32 - c.prefix) - 1)

ranges_of : List Text → List (ℕ × ℕ)
ranges_of [] = []
ranges_of (raw ∷ cidrs) = elim (parse_cidr raw) [
  | none ↦ ranges_of cidrs
  | some parsed ↦ cidr_to_range parsed ∷ ranges_of cidrs
]

pub reserved_ranges : List (ℕ × ℕ)
unfolding ranges_of
reserved_ranges = ranges_of (
    codes "0.0.0.0/8"
    ∷ codes "10.0.0.0/8"
    ∷ codes "100.64.0.0/10"
    ∷ codes "127.0.0.0/8"
    ∷ codes "169.254.0.0/16"
    ∷ codes "172.16.0.0/12"
    ∷ codes "192.168.0.0/16"
    ∷ codes "224.0.0.0/4"
    ∷ codes "240.0.0.0/4"
    ∷ [])

abbrev overlaps : ℕ × ℕ → ℕ × ℕ → Bool
overlaps range reserved = leb range.0 reserved.1 && leb reserved.0 range.1

overlaps_reserved : ℕ × ℕ → Bool
overlaps_reserved range = any (overlaps range) reserved_ranges

pub cidr_text : ℕ → ℕ → Text
cidr_text base prefix = int_to_ip base ++ b'/' ∷ to_text prefix

-- One round of the loop of `sanitizeCidrs`: the canonical text, unless the entry is dropped for
-- what it is.
admit : Text → Option Text
admit raw = elim (parse_cidr raw) [
  | none ↦ none
  | some parsed ↦
      if ltb parsed.prefix 8
      then none
      else if overlaps_reserved (cidr_to_range parsed)
      then none
      else some (cidr_text parsed.base parsed.prefix)
]

-- The loop, over the entries left and those seen.
sanitize_from : List Text → List Text → List Text
sanitize_from seen [] = []
sanitize_from seen (raw ∷ cidrs) = elim (admit raw) [
  | none ↦ sanitize_from seen cidrs
  | some canonical ↦ elim (any (text_eq canonical) seen) [
    | true ↦ sanitize_from seen cidrs
    | false ↦ canonical ∷ sanitize_from (canonical ∷ seen) cidrs
  ]
]

pub sanitize_cidrs : List Text → List Text
sanitize_cidrs cidrs = sanitize_from [] cidrs

-- The loop of `trailingZeros`, on fuel; a positive number is halved fewer times than its value.
zeros_from : ℕ → ℕ → ℕ → ℕ
zeros_from zero value count = count
zeros_from (suc fuel) value count =
    let rest = zeros_from fuel (value / 2) (count + 1) in if value % 2 == 0 then rest else count

trailing_zeros : ℕ → ℕ
unfolding zeros_from
trailing_zeros n = zeros_from n n 0

-- `while (size > 0 && cur + 2 ** size - 1 > end) size--`
fit : ℕ → ℕ → ℕ → ℕ
fit cur end zero = zero
fit cur end (suc size) =
    let smaller = fit cur end size in if ltb end (cur + 2 ^ suc size - 1) then smaller else suc size

-- The size, as a power of two, of the block that `rangeToCidrs` takes at `cur`.
block_bits : ℕ → ℕ → ℕ
block_bits cur end = fit cur end (if cur == 0 then 32 else trailing_zeros cur)

-- The loop of `rangeToCidrs`. Each round moves `cur` on, so `end + 1 - cur` rounds are enough.
blocks_from : ℕ → ℕ → ℕ → List Text
blocks_from zero cur end = []
blocks_from (suc fuel) cur end =
    let size = block_bits cur end in
    let next = cur + 2 ^ size in
    let rest = blocks_from fuel next end in
    let more = if leb max_uint32 next then [] else rest in
    if leb cur end then cidr_text cur (32 - size) ∷ more else []

pub range_to_cidrs : ℕ → ℕ → List Text
range_to_cidrs start end = blocks_from (suc end - start) start end

-- `ranges.sort((a, b) => a[0] - b[0])`, which is stable.
insert_range : ℕ × ℕ → List (ℕ × ℕ) → List (ℕ × ℕ)
insert_range r [] = r ∷ []
insert_range r (q ∷ rs) = if leb r.0 q.0 then r ∷ q ∷ rs else q ∷ insert_range r rs

sort_ranges : List (ℕ × ℕ) → List (ℕ × ℕ)
sort_ranges [] = []
sort_ranges (r ∷ rs) = insert_range r (sort_ranges rs)

-- The merging loop; `s` and `e` are the last element of `merged`, which later rounds may extend.
merge_onto : ℕ → ℕ → List (ℕ × ℕ) → List (ℕ × ℕ)
merge_onto s e [] = (s, e) ∷ []
merge_onto s e ((s', e') ∷ rs) = elim (leb s' (e + 1)) [
  | true ↦ merge_onto s (if ltb e e' then e' else e) rs
  | false ↦ (s, e) ∷ merge_onto s' e' rs
]

merge_ranges : List (ℕ × ℕ) → List (ℕ × ℕ)
merge_ranges [] = []
merge_ranges ((s, e) ∷ rs) = merge_onto s e rs

pub to_merged_ranges : List Text → List (ℕ × ℕ)
to_merged_ranges cidrs = merge_ranges (sort_ranges (ranges_of cidrs))

-- `ranges.flatMap(([s, e]) => rangeToCidrs(s, e))`
blocks_of : List (ℕ × ℕ) → List Text
blocks_of [] = []
blocks_of ((s, e) ∷ rs) = range_to_cidrs s e ++ blocks_of rs

pub aggregate_cidrs : List Text → List Text
aggregate_cidrs cidrs = blocks_of (to_merged_ranges cidrs)

-- `s <= target - 1` and `target + 1 <= e` over the integers.
exclude_from : ℕ → List (ℕ × ℕ) → List Text
exclude_from target [] = []
exclude_from target ((s, e) ∷ rs) =
    let rest = exclude_from target rs in
    if ltb target s || ltb e target
    then range_to_cidrs s e ++ rest
    else (if ltb s target then range_to_cidrs s (target - 1) else [])
      ++ ((if ltb target e then range_to_cidrs (target + 1) e else []) ++ rest)

pub exclude_ip_from_cidrs : List Text → Text → List Text
exclude_ip_from_cidrs cidrs ip =
    let ranges = to_merged_ranges cidrs in
    elim (ip_to_int ip) [ none ↦ blocks_of ranges | some target ↦ exclude_from target ranges ]
