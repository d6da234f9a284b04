-- ===== src/Sessions/Samples.antt =====
-- Toy credentials, and Ada's open session before and after a refresh.
use fredoomeaxima.Common.{ℕ, ◌+◌, ◌*◌, ◌%◌, true, false, [], ◌∷◌, some, ◌==◌}
use fredoomeaxima.Database.{Db, RefreshToken}
use fredoomeaxima.Database.Samples.{ada, bob, empty_db}
use fredoomeaxima.Auth.{Credentials, Draw}

-- A refresh token names its user in its last digit and its random part in the others.
abbrev pub toy : Credentials
toy = record {
  hash_password = λ salt password. salt + password;
  verify_password = λ password_hash password. password_hash == password;
  sign_access = λ now user_id email role. user_id;
  sign_refresh = λ now user_id jti. jti * 10 + user_id;
  verify_refresh = λ now token. some (token % 10);
  hash_token = λ token. token + 1000;
  access_ttl = 900;
  refresh_ttl = 3600;
}

abbrev pub draw_of : ℕ → Draw
draw_of n = record { new_user_id = n; new_token_id = n; salt = 0; jti = n }

abbrev pub ada_token : RefreshToken
ada_token = record { id = 1; user_id = 1; token_hash = 1011; expires_at = 9000; revoked = false }

abbrev pub open_db : Db
open_db = record empty_db { users = ada ∷ bob ∷ []; refresh_tokens = ada_token ∷ [] }

abbrev pub ada_rotated : Db
ada_rotated = record open_db {
  refresh_tokens =
      record { id = 5; user_id = 1; token_hash = 1051; expires_at = 3600100; revoked = false }
      ∷ record ada_token { revoked = true }
      ∷ [];
}
