-- ===== src/Text.antt =====
-- Texts as lists of code units, and what the IPv4 helpers use of JavaScript's strings and numbers:
-- `split`, `join`, `trim`, `indexOf`, `Number` on digits, `String` of a whole number.
pub mod Laws
use Prim.Native.Char.{code}
use Prim.Native.String
use fredoomeaxima.Common.{
  ℕ, zero, suc, ◌+◌, ◌-◌, ◌*◌, ◌/◌, ◌%◌, String, Bool, true, false, ◌&&◌, ◌||◌, List, [], ◌∷◌, ◌++◌,
  Option, none, some, ltb, leb, ◌==◌, if◌then◌else◌, length, all,
}

abbrev pub Text : Type 0
Text = List ℕ

-- The code units of a literal, whose characters take one code unit each here.
abbrev pub codes : String → Text
codes String.[] = []
codes (String.◌∷◌ c s) = code c ∷ codes s

unfoldable pub text_eq : Text → Text → Bool
text_eq [] [] = true
text_eq [] (d ∷ t) = false
text_eq (c ∷ s) [] = false
text_eq (c ∷ s) (d ∷ t) = c == d && text_eq s t

-- White space and line terminators, which `trim` removes.
unfoldable pub is_space : ℕ → Bool
is_space c =
    (leb 9 c && leb c 13)
    || c == 32
    || c == 0xa0
    || c == 0x1680
    || (leb 0x2000 c && leb c 0x200a)
    || c == 0x2028
    || c == 0x2029
    || c == 0x202f
    || c == 0x205f
    || c == 0x3000
    || c == 0xfeff

trim_start : Text → Text
trim_start [] = []
trim_start (c ∷ t) = let rest = trim_start t in if is_space c then rest else c ∷ t

-- Puts a character before a text whose end is trimmed.
trim_cons : ℕ → Text → Text
trim_cons c [] = if is_space c then [] else c ∷ []
trim_cons c (d ∷ t) = c ∷ d ∷ t

trim_end : Text → Text
trim_end [] = []
trim_end (c ∷ t) = trim_cons c (trim_end t)

unfoldable pub trim : Text → Text
unfolding trim_start trim_cons trim_end is_space
trim t = trim_end (trim_start t)

next_index : Option ℕ → Option ℕ
next_index none = none
next_index (some n) = some (suc n)

-- `none` stands for -1.
unfoldable pub index_of : ℕ → Text → Option ℕ
unfolding next_index
index_of c [] = none
index_of c (d ∷ t) = let rest = next_index (index_of c t) in if d == c then some zero else rest

split_cons : ℕ → List Text → List Text
split_cons c [] = (c ∷ []) ∷ []
split_cons c (w ∷ ws) = (c ∷ w) ∷ ws

unfoldable pub split : ℕ → Text → List Text
unfolding split_cons
split s [] = [] ∷ []
split s (c ∷ t) = let rest = split s t in if c == s then [] ∷ rest else split_cons c rest

unfoldable pub join : ℕ → List Text → Text
join s [] = []
join s (w ∷ []) = w
join s (w ∷ v ∷ ws) = w ++ s ∷ join s (v ∷ ws)

unfoldable pub is_digit : ℕ → Bool
is_digit c = leb 48 c && leb c 57

-- The test of `/^\d{1,n}$/`.
unfoldable pub is_digits : ℕ → Text → Bool
unfolding is_digit
is_digits n t = ltb 0 (length t) && leb (length t) n && all is_digit t

number_from : ℕ → Text → ℕ
number_from acc [] = acc
number_from acc (c ∷ t) = number_from (acc * 10 + (c - 48)) t

-- `Number(t)` of a text of digits.
unfoldable pub to_number : Text → ℕ
unfolding number_from
to_number t = number_from 0 t

decimal_from : ℕ → ℕ → Text → Text
decimal_from zero n acc = acc
decimal_from (suc fuel) n acc =
    let rest = decimal_from fuel (n / 10) ((48 + n % 10) ∷ acc) in
    if ltb n 10 then (48 + n) ∷ acc else rest

-- `String(n)`. A number has fewer digits than its successor counts, so the fuel suffices.
unfoldable pub to_text : ℕ → Text
unfolding decimal_from
to_text n = decimal_from (n + 1) n []
