-- ===== src/Cipher.antt =====
-- apps/api/src/common/crypto.service.ts: the format of encrypted columns, over AES-256-GCM, base64
-- and UTF-8 of the platform.
pub mod Format
mod Tests
use fredoomeaxima.Common.{
  ℕ, ◌+◌, Bool, not, List, [], ◌∷◌, ◌++◌, Option, none, some, ◌==◌, take, drop, if◌then◌else◌,
}
use fredoomeaxima.Text.{Text, codes, to_text}

abbrev pub Bytes : Type 0
Bytes = List ℕ

-- A key is fixed: `seal` gives the ciphertext and its tag, `unseal` fails on what it did not make.
pub record Platform : Type 0 where
  pub seal : (iv plaintext : Bytes) → Bytes × Bytes
  pub unseal : (iv tag ciphertext : Bytes) → Option Bytes
  pub to_base64 : Bytes → Text
  pub from_base64 : Text → Bytes
  pub to_utf8 : Text → Bytes
  pub from_utf8 : Bytes → Text

pub data CipherError : Type 0 where
  unsupported_version : Text → CipherError
  not_authentic : CipherError

pub data Decrypted : Type 0 where
  plain : Text → Decrypted
  failed : CipherError → Decrypted

abbrev pub version : ℕ
version = 1

abbrev pub iv_len : ℕ
iv_len = 12

abbrev pub tag_len : ℕ
tag_len = 16

-- `subarray(from, from + count)`
slice : ℕ → ℕ → Bytes → Bytes
slice from count bytes = take count (drop from bytes)

pub encrypt : Platform → (iv : Bytes) → Text → Text
encrypt p iv plaintext =
    let (ciphertext, tag) = p.seal iv (p.to_utf8 plaintext) in
    p.to_base64 (version ∷ iv ++ (tag ++ ciphertext))

opened : Platform → Option Bytes → Decrypted
opened p none = failed not_authentic
opened p (some bytes) = plain (p.from_utf8 bytes)

decrypt_body : Platform → Bytes → Decrypted
unfolding slice opened
decrypt_body p buf = opened p (
    p.unseal (slice 1 iv_len buf) (slice (1 + iv_len) tag_len buf)
      (drop (1 + iv_len + tag_len) buf))

decrypt_bytes : Platform → Bytes → Decrypted
unfolding decrypt_body
decrypt_bytes p [] = failed (unsupported_version (codes "undefined"))
decrypt_bytes p (v ∷ rest) =
    if not (v == version)
    then failed (unsupported_version (to_text v))
    else decrypt_body p (v ∷ rest)

pub decrypt : Platform → Text → Decrypted
unfolding decrypt_bytes
decrypt p payload = decrypt_bytes p (p.from_base64 payload)
