-- ===== src/WireGuard/Names.antt =====
-- The names of tunnels, which WireGuard's client takes from the names of configuration files.
use fredoomeaxima.Common.{
  ℕ, zero, suc, ◌-◌, ◌≤◌, ◌≡◌, refl, Bool, true, ◌&&◌, ◌||◌, [], ◌∷◌, ◌++◌, leb, ◌==◌, length,
  filter, take, all, arith, length-append, all-append, Bool-cases, inl, inr,
}
use fredoomeaxima.Text.{Text, codes, is_digit}
use fredoomeaxima.WireGuard.{is_upper, is_code_char, or_unknown, drop, last_of, build_config_name}

-- The class `[A-Za-z0-9_=+.-]`.
unfoldable pub is_tunnel_char : ℕ → Bool
unfolding is_digit
is_tunnel_char c =
    (leb 65 c && leb c 90)
    || (leb 97 c && leb c 122)
    || is_digit c
    || c == b'_'
    || c == b'='
    || c == b'+'
    || c == b'.'
    || c == b'-'

-- The expression `^[A-Za-z0-9_=+.-]{1,15}$` that the client accepts.
unfoldable pub is_tunnel_name : Text → Bool
unfolding is_tunnel_char
is_tunnel_name t = leb 1 (length t) && (leb (length t) 15 && all is_tunnel_char t)

length-take : (n : ℕ) (t : Text) → length (take n t) ≤ n
length-take zero t = omega arith
length-take (suc n) [] = omega arith
length-take (suc n) (c ∷ t) = omega (arith, length-take n t)

all-take : (p : ℕ → Bool) (n : ℕ) (t : Text) → all p t ≡ true → all p (take n t) ≡ true
unfolding all
all-take p zero t h = refl
all-take p (suc n) [] h = refl
all-take p (suc n) (c ∷ t) h = ground (arith, all-take p n t)

length-drop : (n : ℕ) (t : Text) → length (drop n t) ≡ length t - n
unfolding drop
length-drop zero t = omega arith
length-drop (suc n) [] = omega arith
length-drop (suc n) (c ∷ t) = omega (arith, length-drop n t)

all-drop : (p : ℕ → Bool) (n : ℕ) (t : Text) → all p t ≡ true → all p (drop n t) ≡ true
unfolding drop all
all-drop p zero t h = h
all-drop p (suc n) [] h = refl
all-drop p (suc n) (c ∷ t) h = ground (arith, all-drop p n t)

length-last_of : (n : ℕ) (t : Text) → length (last_of n t) ≤ n
unfolding last_of
length-last_of n t = omega (arith, length-drop (length t - n) t)

code_tunnel : (c : ℕ) → is_code_char c ≡ true → is_tunnel_char c ≡ true
unfolding is_tunnel_char is_code_char is_upper is_digit
code_tunnel c h = ground (arith, h)

all-code : (t : Text) → all is_tunnel_char (filter is_code_char t) ≡ true
unfolding all filter
all-code [] = refl
all-code (c ∷ t) = elim (Bool-cases (is_code_char c)) [
  | inl kept ↦ rw kept (rw (code_tunnel c kept) (all-code t))
  | inr other ↦ rw other (all-code t)
]

last_of-tunnel :
    (n : ℕ) (t : Text) → all is_tunnel_char t ≡ true → all is_tunnel_char (last_of n t) ≡ true
unfolding last_of
last_of-tunnel n t = all-drop is_tunnel_char (length t - n) t

joined :
    (a b : Text)
    → length a ≤ 2
    → length b ≤ 4
    → all is_tunnel_char a ≡ true
    → all is_tunnel_char b ≡ true
    → is_tunnel_name (codes "Axima-" ++ (a ++ (codes "-" ++ b))) ≡ true
unfolding is_tunnel_name is_tunnel_char is_digit all
joined a b short small a_ok b_ok =
    let total = length-append a (codes "-" ++ b) in
    let chars = all-append is_tunnel_char a (codes "-" ++ b) in
    ground (arith, total, chars, a_ok, b_ok, short, small)

-- The name of a configuration is one that WireGuard's client accepts, whatever the country's code
-- and however it is turned to upper case: it has between one and fifteen characters, all of the
-- accepted class. The peer's identifier has only accepted characters.
pub build_config_name-accepted :
    (upper : Text → Text) (country_code peer_id : Text)
    → all is_tunnel_char peer_id ≡ true
    → is_tunnel_name (build_config_name upper country_code peer_id) ≡ true
unfolding build_config_name
build_config_name-accepted upper country_code peer_id h =
    let code = filter is_code_char (upper (or_unknown country_code)) in
    joined (take 2 code) (last_of 4 peer_id) (length-take 2 code) (length-last_of 4 peer_id)
      (all-take is_tunnel_char 2 code (all-code (upper (or_unknown country_code))))
      (last_of-tunnel 4 peer_id h)
