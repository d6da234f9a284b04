-- ===== src/WireGuard/Tests.antt =====
-- The name for a country whose code has a sign in it.
use fredoomeaxima.Common.{◌≡◌, refl, true, all, filter}
use fredoomeaxima.Text.{codes, is_digit}
use fredoomeaxima.WireGuard.{build_config_name, is_upper, is_code_char, last_of, drop}
use fredoomeaxima.WireGuard.Names.{is_tunnel_char, is_tunnel_name, build_config_name-accepted}

name_test :
    build_config_name (λ t. codes "N-L") (codes "n-l") (codes "cm19f3a") ≡ codes "Axima-NL-9f3a"
unfolding build_config_name filter is_code_char is_upper is_digit last_of drop
name_test = refl

build_config_name-accepted_example :
    is_tunnel_name (build_config_name (λ t. codes "N-L") (codes "n-l") (codes "cm19f3a")) ≡ true
unfolding all is_tunnel_char is_digit
build_config_name-accepted_example =
    build_config_name-accepted (λ t. codes "N-L") (codes "n-l") (codes "cm19f3a") refl
