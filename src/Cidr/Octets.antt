-- ===== src/Cidr/Octets.antt =====
-- Dotted-quad addresses: printing and parsing.
use native.Mathlib.Nat.{pow-suc}
use fredoomeaxima.Common.{
  subst, Bool-cases, inl, inr, ℕ, zero, suc, ◌+◌, ◌*◌, ◌/◌, ◌%◌, ◌^◌, ◌≤◌, &&-true, ◌<◌, ◌≡◌, refl,
  Bool, true, ◌&&◌, List, [], ◌∷◌, map, some, arith, ◌==◌, length, all, ap, ◌∙◌, ==_iff, all-append,
}
use fredoomeaxima.Text.{Text, split, join, is_digits, to_number, to_text, is_space}
use fredoomeaxima.Text.Laws.{free_of, spaceless, split_free, split-append}
use fredoomeaxima.Cidr.{ip_to_int, int_to_ip, parse_octets}

-- Whether a test holds of the numbers from `from` on, `many` of them.
holds_for : (ℕ → Bool) → ℕ → ℕ → Bool
holds_for test from zero = true
holds_for test from (suc many) = test from && holds_for test (from + 1) many

at-holds_for :
    (test : ℕ → Bool) (from many n : ℕ)
    → from ≤ n
    → n < from + many
    → holds_for test from many ≡ true
    → test n ≡ true
unfolding holds_for
at-holds_for test from zero n low high h = absurd (omega arith)
at-holds_for test from (suc many) n low high h = elim (Bool-cases (from == n)) [
  | inl same ↦
      subst (λ k. test k ≡ true) ((==_iff _ _).0 same)
        (&&-true (test from) (holds_for test (from + 1) many) h).0
  | inr other ↦
      at-holds_for test (from + 1) many n (ground arith) (omega arith)
        (&&-true (test from) (holds_for test (from + 1) many) h).1
]

-- What the printed form of an octet has to satisfy.
octet_ok : ℕ → Bool
octet_ok n =
    to_number (to_text n) == n
    && is_digits 3 (to_text n)
    && free_of b'.' (to_text n)
    && free_of b'/' (to_text n)
    && spaceless (to_text n)

octet_table : holds_for octet_ok 0 256 ≡ true
unfolding holds_for octet_ok to_number to_text is_digits all is_space
octet_table = refl

pub record OctetText (n : ℕ) : Type 0 where
  pub value : to_number (to_text n) ≡ n
  pub digits : is_digits 3 (to_text n) ≡ true
  pub dotless : free_of b'.' (to_text n) ≡ true
  pub slashless : free_of b'/' (to_text n) ≡ true
  pub solid : spaceless (to_text n) ≡ true

octet_ok→OctetText : (n : ℕ) → octet_ok n ≡ true → OctetText n
unfolding octet_ok
octet_ok→OctetText n h = ground arith

pub octet_text : (n : ℕ) → n < 256 → OctetText n
octet_text n h =
    octet_ok→OctetText n (at-holds_for octet_ok 0 256 n (omega arith) (omega arith) octet_table)

ip_to_int_parts :
    (a b c d : ℕ)
    → a < 256
    → b < 256
    → c < 256
    → d < 256
    → ip_to_int (join b'.' (map to_text (a ∷ b ∷ c ∷ d ∷ [])))
      ≡ some (((a * 256 + b) * 256 + c) * 256 + d)
unfolding ip_to_int join
ip_to_int_parts a b c d ha hb hc hd =
    let oa = octet_text a ha in
    let ob = octet_text b hb in
    let oc = octet_text c hc in
    let od = octet_text d hd in
    rw
      (
        split-append b'.' (to_text a) _ oa.dotless,
        split-append b'.' (to_text b) _ ob.dotless,
        split-append b'.' (to_text c) _ oc.dotless,
        split_free b'.' (to_text d) od.dotless,
      )
      (ground arith)

-- A 32-bit number printed as an address parses back to the number.
pub ip_to_int-int_to_ip : (v : ℕ) → v < 2 ^ 32 → ip_to_int (int_to_ip v) ≡ some v
unfolding int_to_ip
ip_to_int-int_to_ip v h =
    let parts =
      ip_to_int_parts (v / 16777216 % 256) (v / 65536 % 256) (v / 256 % 256) (v % 256) (omega arith)
        (omega arith) (omega arith) (omega arith) in
    parts ∙ ap some (omega arith)

parse_octets_bound :
    (value : ℕ) (parts : List Text) (v k : ℕ)
    → parse_octets value parts ≡ some v
    → value < k
    → v < k * 256 ^ length parts
unfolding parse_octets
parse_octets_bound value [] v k h lt = ground arith
parse_octets_bound value (part ∷ parts) v k h lt =
    let ih : v < k * 256 * 256 ^ length parts =
      parse_octets_bound (value * 256 + to_number part) parts v (k * 256) (ground arith)
        (ground arith) in
    rw pow-suc (omega (arith, ih))

-- A parsed address is a 32-bit number.
pub ip_to_int-lt : (ip : Text) (v : ℕ) → ip_to_int ip ≡ some v → v < 2 ^ 32
unfolding ip_to_int
ip_to_int-lt ip v h = elim (Bool-cases (length (split b'.' ip) == 4)) [
  | inl e ↦
      let bound = parse_octets_bound 0 (split b'.' ip) v 1 (ground arith) (omega arith) in
      let four : v < 1 * 256 ^ 4 = subst (λ n. v < 1 * 256 ^ n) ((==_iff _ _).0 e) bound in
      omega arith
  | inr e ↦ absurd (ground arith)
]

-- A printed address has neither slashes nor white space.
int_to_ip-all :
    (p : ℕ → Bool) (v : ℕ)
    → p b'.' ≡ true
    → ((n : ℕ) → n < 256 → all p (to_text n) ≡ true)
    → all p (int_to_ip v) ≡ true
unfolding int_to_ip join
int_to_ip-all p v dot octets =
    let a = octets (v / 16777216 % 256) (omega arith) in
    let b = octets (v / 65536 % 256) (omega arith) in
    let c = octets (v / 256 % 256) (omega arith) in
    let d = octets (v % 256) (omega arith) in unfold all in simp (all-append, dot, a, b, c, d)

pub int_to_ip-slashless : (v : ℕ) → free_of b'/' (int_to_ip v) ≡ true
int_to_ip-slashless v = int_to_ip-all _ v refl (λ n h. (octet_text n h).slashless)

pub int_to_ip-spaceless : (v : ℕ) → spaceless (int_to_ip v) ≡ true
unfolding is_space
int_to_ip-spaceless v = int_to_ip-all _ v refl (λ n h. (octet_text n h).solid)

prefix_table : holds_for (λ n. is_digits 2 (to_text n)) 0 33 ≡ true
unfolding holds_for to_text is_digits all
prefix_table = refl

pub prefix_digits : (n : ℕ) → n ≤ 32 → is_digits 2 (to_text n) ≡ true
prefix_digits n h = at-holds_for _ 0 33 n (omega arith) (omega arith) prefix_table
