-- ===== src/Cidr/Tests.antt =====
-- Runs of the CIDR functions, those of apps/api/src/common/cidr.util.check.ts among them, and the
-- theorems at concrete inputs.
use fredoomeaxima.Common.{ℕ, ◌≡◌, refl, false, not, ◌&&◌, List, [], ◌∷◌, some, arith, any, all}
use fredoomeaxima.Text.{
  Text, codes, text_eq, trim, index_of, split, join, is_digits, to_number, to_text,
}
use fredoomeaxima.Cidr.{
  ip_to_int, int_to_ip, parse_parts, parse_cidr, cidr_text, cidr_to_range, ranges_of,
  overlaps_reserved, reserved_ranges, admit, sanitize_from, sanitize_cidrs, aggregate_cidrs,
  exclude_ip_from_cidrs, exclude_from, blocks_of, range_to_cidrs, blocks_from, block_bits, fit,
  trailing_zeros, zeros_from, to_merged_ranges, merge_ranges, merge_onto, sort_ranges, insert_range,
}
use fredoomeaxima.Cidr.Notation.{parse_cidr-cidr_text}
use fredoomeaxima.Cidr.Blocks.{routes}
use fredoomeaxima.Cidr.Coverage.{aggregate_cidrs-routes, is_address, exclude_ip_from_cidrs-routes}
use fredoomeaxima.Cidr.Sanitize.{sanitize_cidrs-routes, rightly_routes, aggregate-sanitize_reserved}

-- Opens what parsing runs through.
parsing : ℕ
unfolding parse_cidr parse_parts ip_to_int trim index_of split is_digits to_number all
parsing = 0

printing : ℕ
unfolding cidr_text int_to_ip join to_text
printing = 0

aggregating : ℕ
unfolding parsing printing aggregate_cidrs blocks_of range_to_cidrs blocks_from block_bits fit
    trailing_zeros zeros_from to_merged_ranges ranges_of cidr_to_range merge_ranges merge_onto
    sort_ranges insert_range
aggregating = 0

aggregate_contained :
    aggregate_cidrs (codes "1.1.1.1/32" ∷ codes "1.1.1.0/24" ∷ codes "1.1.1.2/32" ∷ [])
    ≡ codes "1.1.1.0/24" ∷ []
unfolding aggregating
aggregate_contained = refl

aggregate_adjacent :
    aggregate_cidrs (codes "8.8.8.0/25" ∷ codes "8.8.8.128/25" ∷ []) ≡ codes "8.8.8.0/24" ∷ []
unfolding aggregating
aggregate_adjacent = refl

exclude_outside :
    exclude_ip_from_cidrs (codes "8.8.8.0/24" ∷ []) (codes "9.9.9.9") ≡ codes "8.8.8.0/24" ∷ []
unfolding aggregating exclude_ip_from_cidrs exclude_from
exclude_outside = refl

reserved_numbers :
    reserved_ranges
    ≡ (0, 16777215)
      ∷ (167772160, 184549375)
      ∷ (1681915904, 1686110207)
      ∷ (2130706432, 2147483647)
      ∷ (2851995648, 2852061183)
      ∷ (2886729728, 2887778303)
      ∷ (3232235520, 3232301055)
      ∷ (3758096384, 4026531839)
      ∷ (4026531840, 4294967295)
      ∷ []
unfolding reserved_ranges ranges_of cidr_to_range parsing
reserved_numbers = refl

sanitize_mixed :
    sanitize_cidrs (
      codes "0.0.0.0/0"
      ∷ codes "10.0.0.1/32"
      ∷ codes "8.8.8.8/32"
      ∷ codes "garbage"
      ∷ codes "192.168.1.0/24"
      ∷ [])
    ≡ codes "8.8.8.8/32" ∷ []
unfolding sanitize_cidrs sanitize_from admit overlaps_reserved reserved_ranges ranges_of
    cidr_to_range parsing printing text_eq any
sanitize_mixed = refl

abbrev mixed : List Text
mixed = codes "10.1.0.0/16" ∷ codes "8.8.8.8" ∷ codes "8.8.8.9/24" ∷ []

parse_cidr-cidr_text_example :
    parse_cidr (cidr_text 134744064 24) ≡ some (record { base = 134744064; prefix = 24 })
parse_cidr-cidr_text_example =
    parse_cidr-cidr_text (record { base = 134744064; prefix = 24 }) (omega arith)

aggregate_cidrs-routes_example : routes 134744072 (aggregate_cidrs mixed) ≡ routes 134744072 mixed
aggregate_cidrs-routes_example = aggregate_cidrs-routes 134744072 mixed

exclude_ip_from_cidrs-routes_example :
    routes 134744072 (exclude_ip_from_cidrs mixed (codes "8.8.8.8"))
    ≡ (routes 134744072 mixed && not (is_address 134744072 (ip_to_int (codes "8.8.8.8"))))
exclude_ip_from_cidrs-routes_example =
    exclude_ip_from_cidrs-routes 134744072 mixed (codes "8.8.8.8")

sanitize_cidrs-routes_example :
    routes 134744072 (sanitize_cidrs mixed) ≡ any (rightly_routes 134744072) mixed
sanitize_cidrs-routes_example = sanitize_cidrs-routes 134744072 mixed

aggregate-sanitize_reserved_example :
    routes 167837697 (aggregate_cidrs (sanitize_cidrs mixed)) ≡ false
unfolding reserved_ranges ranges_of cidr_to_range parsing any
aggregate-sanitize_reserved_example = aggregate-sanitize_reserved 167837697 mixed refl
