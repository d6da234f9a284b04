-- ===== src/IpAlloc/Samples.antt =====
-- A subnet for the tests, with `Number` on texts of at most three digits.
use fredoomeaxima.Common.{ℕ, ◌≡◌, refl, true, false, List, [], ◌∷◌, all, any}
use fredoomeaxima.Text.{Text, codes, is_digits, to_number, to_text, split, join}
use fredoomeaxima.Exec.{ok}
use fredoomeaxima.Cidr.Octets.{octet_text}
use fredoomeaxima.IpAlloc.{
  Number, next_free_ip, next_free_int, int_to_ip, first_free, parse_subnet, parse_pieces,
  parse_prefix, host_bits, subnet_of, ip_to_int, octets_from, octet, exceeds, address_of,
  first_piece, addresses_of,
}
use fredoomeaxima.IpAlloc.Allocation.{Parsed}
use fredoomeaxima.IpAlloc.Fresh.{ReadsOctets}

pub digits_of : Text → Number
digits_of t = elim (is_digits 3 t) [
  | true ↦ Number.nonnegative (to_number t) false
  | false ↦ Number.nan
]

pub digits_of-ReadsOctets : ReadsOctets digits_of
unfolding digits_of
digits_of-ReadsOctets n h = let o = octet_text n h in rw (o.digits, digits_of) (rw o.value refl)

abbrev pub subnet : Text
subnet = codes "10.66.66.0/29"

abbrev pub server_address : Text
server_address = codes "10.66.66.1/24"

abbrev pub in_use : List Text
in_use = codes "10.66.66.2" ∷ codes "10.66.66.4" ∷ []

parsing : ℕ
unfolding digits_of parse_subnet parse_pieces parse_prefix host_bits subnet_of ip_to_int octets_from
    octet exceeds address_of first_piece addresses_of is_digits to_number split all
parsing = 0

allocating : ℕ
unfolding parsing next_free_ip next_free_int first_free any int_to_ip join to_text
allocating = 0

pub taken : next_free_ip digits_of subnet server_address in_use ≡ ok (codes "10.66.66.3")
unfolding allocating
taken = refl

pub taken_first : next_free_ip digits_of subnet server_address [] ≡ ok (codes "10.66.66.2")
unfolding allocating
taken_first = refl

pub parsed : Parsed digits_of subnet server_address in_use
unfolding parsing
parsed = record {
  info = record { network = 0x0a424200; broadcast = 0x0a424207 };
  server = 0x0a424201;
  used = 0x0a424202 ∷ 0x0a424204 ∷ [];
  subnet_ok = refl;
  server_ok = refl;
  used_ok = refl;
}
