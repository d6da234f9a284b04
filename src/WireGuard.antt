-- ===== src/WireGuard.antt =====
-- apps/api/src/common/wireguard.util.ts: the names and texts of client configurations. Keys come
-- from the platform.
pub mod Names
mod Tests
use fredoomeaxima.Common.{
  ℕ, zero, suc, ◌-◌, Bool, true, false, ◌&&◌, ◌||◌, List, [], ◌∷◌, ◌++◌, ltb, leb, ◌==◌, length,
  filter, take, if◌then◌else◌,
}
use fredoomeaxima.Text.{Text, codes, join, is_digit}

is_upper : ℕ → Bool
is_upper c = leb 65 c && leb c 90

-- What `replace(/[^A-Z0-9]/g, '')` keeps.
is_code_char : ℕ → Bool
unfolding is_upper is_digit
is_code_char c = is_upper c || is_digit c

abbrev or_unknown : Text → Text
or_unknown [] = codes "XX"
or_unknown (c ∷ t) = c ∷ t

drop : ℕ → Text → Text
drop zero t = t
drop (suc n) [] = []
drop (suc n) (c ∷ t) = drop n t

-- `slice(-n)`
last_of : ℕ → Text → Text
unfolding drop
last_of n t = drop (length t - n) t

-- The first argument is `toUpperCase`.
pub build_config_name : (Text → Text) → Text → Text → Text
unfolding is_code_char last_of
build_config_name upper country_code peer_id =
    codes "Axima-"
    ++ (take 2 (filter is_code_char (upper (or_unknown country_code)))
        ++ (codes "-" ++ last_of 4 peer_id))

pub record ClientConfig : Type 0 where
  pub client_private_key : Text
  pub client_address : Text
  pub dns : Text
  pub server_public_key : Text
  pub preshared_key : Text
  pub endpoint : Text
  pub allowed_ips : List Text

join_comma : List Text → Text
join_comma [] = []
join_comma (w ∷ []) = w
join_comma (w ∷ v ∷ ws) = w ++ (codes ", " ++ join_comma (v ∷ ws))

-- `params.allowedIps.length > 0 ? ... : '0.0.0.0/0'`
allowed_of : List Text → Text
unfolding join_comma
allowed_of [] = codes "0.0.0.0/0"
allowed_of (w ∷ ws) = join_comma (w ∷ ws)

config_lines : ClientConfig → List Text
unfolding allowed_of
config_lines params =
    codes "[Interface]"
    ∷ (codes "PrivateKey = " ++ params.client_private_key)
    ∷ (codes "Address = " ++ params.client_address)
    ∷ (codes "DNS = " ++ params.dns)
    ∷ codes ""
    ∷ codes "[Peer]"
    ∷ (codes "PublicKey = " ++ params.server_public_key)
    ∷ (codes "PresharedKey = " ++ params.preshared_key)
    ∷ (codes "Endpoint = " ++ params.endpoint)
    ∷ (codes "AllowedIPs = " ++ allowed_of params.allowed_ips)
    ∷ codes "PersistentKeepalive = 25"
    ∷ codes ""
    ∷ []

pub render_client_config : ClientConfig → Text
unfolding config_lines
render_client_config params = join b'\n' (config_lines params)
