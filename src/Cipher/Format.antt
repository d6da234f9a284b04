-- ===== src/Cipher/Format.antt =====
-- What was encrypted decrypts to itself; what has another version is refused.
use fredoomeaxima.Common.{
  ℕ, suc, ◌+◌, ◌≡◌, refl, subst, ◌∙◌, List, [], ◌∷◌, ◌++◌, some, arith, take, drop, length,
  take-length-append, Bool, true, false, not, ◌&&◌, All, ltb, leb, if◌then◌else◌,
}
use fredoomeaxima.Text.{Text}
use fredoomeaxima.Cipher.{
  Bytes, Platform, plain, version, iv_len, tag_len, slice, encrypt, opened, decrypt_body,
  decrypt_bytes, decrypt,
}

abbrev pub AreBytes : Bytes → Type 0
AreBytes = All (λ b. ltb b 256 ≡ true)

abbrev is_high : ℕ → Bool
is_high c = leb 0xd800 c && leb c 0xdbff

abbrev is_low : ℕ → Bool
is_low c = leb 0xdc00 c && leb c 0xdfff

-- Code units in which every surrogate is part of a pair; `expects_low` says that a high one was
-- read last.
unfoldable pub well_formed_from : Bool → Text → Bool
well_formed_from false [] = true
well_formed_from true [] = false
well_formed_from false (c ∷ t) =
    let alone = well_formed_from false t in
    let paired = well_formed_from true t in
    if is_high c then paired else not (is_low c) && ltb c 65536 && alone
well_formed_from true (c ∷ t) = is_low c && well_formed_from false t

abbrev pub IsWellFormed : Text → Type 0
IsWellFormed t = well_formed_from false t ≡ true

-- What the platform's documentation says of these functions: base64 carries any bytes, UTF-8 any
-- text without a lone surrogate, and AES-256-GCM gives a tag of sixteen bytes with which the
-- ciphertext opens again.
pub record Laws (p : Platform) : Type 0 where
  pub base64 : (bytes : Bytes) → AreBytes bytes → p.from_base64 (p.to_base64 bytes) ≡ bytes
  pub utf8_bytes : (t : Text) → IsWellFormed t → AreBytes (p.to_utf8 t)
  pub utf8 : (t : Text) → IsWellFormed t → p.from_utf8 (p.to_utf8 t) ≡ t
  pub sealed_bytes :
      (iv plaintext : Bytes)
      → AreBytes iv
      → AreBytes plaintext
      → AreBytes (p.seal iv plaintext).0 × AreBytes (p.seal iv plaintext).1
  pub tag_length :
      (iv plaintext : Bytes)
      → AreBytes iv
      → AreBytes plaintext
      → length (p.seal iv plaintext).1 ≡ tag_len
  pub unseals :
      (iv plaintext : Bytes)
      → AreBytes iv
      → AreBytes plaintext
      → p.unseal iv (p.seal iv plaintext).1 (p.seal iv plaintext).0 ≡ some plaintext

append-AreBytes : (xs ys : Bytes) → AreBytes xs → AreBytes ys → AreBytes (xs ++ ys)
append-AreBytes [] ys a b = b
append-AreBytes (x ∷ xs) ys a b = (a.0, append-AreBytes xs ys a.1 b)

drop-append : {A : Type 0} (m : ℕ) (xs ys : List A) → drop (length xs + m) (xs ++ ys) ≡ drop m ys
drop-append m [] ys =
    let same : m ≡ 0 + m = omega arith in subst (λ n. drop n ys ≡ drop m ys) same refl
drop-append m (x ∷ xs) ys =
    let next : suc (length xs + m) ≡ suc (length xs) + m = omega arith in
    subst (λ n. drop n (x ∷ xs ++ ys) ≡ drop m ys) next (drop-append m xs ys)

module _ (p : Platform) (laws : Laws p) (iv : Bytes) (sized : length iv ≡ iv_len) where
  front : (m : ℕ) (ys : Bytes) → drop (iv_len + m) (iv ++ ys) ≡ drop m ys
  front m ys = subst (λ n. drop (n + m) (iv ++ ys) ≡ drop m ys) sized (drop-append m iv ys)

  iv_part : (v : ℕ) (ys : Bytes) → slice 1 iv_len (v ∷ iv ++ ys) ≡ iv
  unfolding slice
  iv_part v ys = subst (λ n. take n (iv ++ ys) ≡ iv) sized (take-length-append iv ys)

  tag_part :
      (v : ℕ) (tag ys : Bytes)
      → length tag ≡ tag_len
      → slice (1 + iv_len) tag_len (v ∷ iv ++ (tag ++ ys)) ≡ tag
  unfolding slice
  tag_part v tag ys long =
      rw (front 0 (tag ++ ys))
        (subst (λ n. take n (tag ++ ys) ≡ tag) long (take-length-append tag ys))

  body_part :
      (v : ℕ) (tag ys : Bytes)
      → length tag ≡ tag_len
      → drop (1 + iv_len + tag_len) (v ∷ iv ++ (tag ++ ys)) ≡ ys
  body_part v tag ys long =
      front tag_len (tag ++ ys)
      ∙ subst (λ n. drop (n + 0) (tag ++ ys) ≡ ys) long (drop-append 0 tag ys)

  -- With an initialisation vector of twelve bytes, decrypting gives back the text that was
  -- encrypted, if it has no lone surrogate, over a platform that does what its documentation says.
  pub decrypt-encrypt :
      AreBytes iv → (t : Text) → IsWellFormed t → decrypt p (encrypt p iv t) ≡ plain t
  unfolding decrypt encrypt decrypt_bytes decrypt_body opened
  decrypt-encrypt drawn t formed =
      let sealed = p.seal iv (p.to_utf8 t) in
      let read = laws.utf8_bytes t formed in
      let long = laws.tag_length iv (p.to_utf8 t) drawn read in
      let parts = laws.sealed_bytes iv (p.to_utf8 t) drawn read in
      let whole : AreBytes (version ∷ iv ++ (sealed.1 ++ sealed.0)) =
        (refl, append-AreBytes iv _ drawn (append-AreBytes sealed.1 sealed.0 parts.1 parts.0)) in
      rw (laws.base64 (version ∷ iv ++ (sealed.1 ++ sealed.0)) whole) (
        rw
          (
            iv_part version (sealed.1 ++ sealed.0),
            tag_part version sealed.1 sealed.0 long,
            body_part version sealed.1 sealed.0 long,
            laws.unseals iv (p.to_utf8 t) drawn read,
            laws.utf8 t formed,
          )
          refl)
