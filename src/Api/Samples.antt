-- ===== src/Api/Samples.antt =====
-- What the panel takes from outside, for the tests: two access tokens that verify, and agents that
-- accept everything.
use fredoomeaxima.Common.{ℕ, true, Option, none, some, ◌==◌, if◌then◌else◌}
use fredoomeaxima.Text.{Text, codes, text_eq}
use fredoomeaxima.Exec.{ok, err, unavailable}
use fredoomeaxima.Database.{UserRole}
use fredoomeaxima.IpAlloc.Samples.{digits_of, subnet, server_address}
use fredoomeaxima.Payments.{WebhookVerdict}
use fredoomeaxima.Api.{AuthUser, Env}

abbrev pub root : AuthUser
root = record { id = 9; email = "root@example.com"; role = UserRole.admin }

abbrev pub ada_user : AuthUser
ada_user = record { id = 1; email = "ada@example.com"; role = UserRole.user }

abbrev pub verify : ℕ → Text → Option AuthUser
verify now token =
    if text_eq token (codes "root")
    then some root
    else if text_eq token (codes "ada")
    then some ada_user
    else none

abbrev pub env : Env ℕ
env = record {
  now = 1000;
  new_id = 40;
  new_subscription_id = 41;
  draw = record { new_user_id = 42; new_token_id = 43; salt = 0; jti = 1 };
  credentials = record {
    hash_password = λ salt password. password;
    verify_password = λ password_hash password. password_hash == password;
    sign_access = λ now user_id email role. user_id;
    sign_refresh = λ now user_id jti. jti;
    verify_refresh = λ now token. none;
    hash_token = λ token. token;
    access_ttl = 900;
    refresh_ttl = 3600;
  };
  verify_access = verify;
  web_url = "https://example.com";
  provider = record {
    name = "none";
    create_payment = λ params. err (unavailable "no provider");
    handle_webhook = λ body. ok WebhookVerdict.ignored;
  };
  world = record {
    number = digits_of;
    subnet = subnet;
    server_address = server_address;
    crypto = record { encrypt = λ n. n; decrypt = λ n. ok n };
    add_peer = λ server key preshared ip. ok tt;
  };
  fresh = record { id = 44; private_key = 1; public_key = 2; preshared_key = 3 };
  crypto = record { encrypt = λ n. n; decrypt = λ n. ok n };
  new_install_token = 45;
  new_agent_token = 46;
  token_of = λ token. 0;
  dns = λ domain. none;
  probe = λ id. record { reachable = true; latency_ms = 3; target = none };
  restart_agent = λ server. ok tt;
}
