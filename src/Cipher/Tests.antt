-- ===== src/Cipher/Tests.antt =====
-- A platform whose cipher changes nothing.
use fredoomeaxima.Common.{
  ◌+◌, ◌*◌, ◌/◌, ◌%◌, ◌≡◌, refl, Bool, true, false, ◌&&◌, [], ◌∷◌, ◌++◌, some, All, ltb, leb,
  Bool-cases, inl, inr, arith,
}
use fredoomeaxima.Text.{Text, codes, to_text}
use fredoomeaxima.Cipher.{
  Bytes, Platform, plain, failed, unsupported_version, encrypt, decrypt, decrypt_bytes,
}
use fredoomeaxima.Cipher.Format.{Laws, AreBytes, well_formed_from, decrypt-encrypt}

abbrev zeros : Bytes
zeros = 0 ∷ 0 ∷ 0 ∷ 0 ∷ 0 ∷ 0 ∷ 0 ∷ 0 ∷ []

abbrev split_units : Text → Bytes
split_units [] = []
split_units (c ∷ t) = (c / 256) ∷ (c % 256) ∷ split_units t

abbrev join_units : Bytes → Text
join_units [] = []
join_units (b ∷ []) = []
join_units (b ∷ c ∷ t) = (b * 256 + c) ∷ join_units t

abbrev toy : Platform
toy = record {
  seal = λ iv plaintext. (plaintext, zeros ++ zeros);
  unseal = λ iv tag ciphertext. some ciphertext;
  to_base64 = λ bytes. bytes;
  from_base64 = λ t. t;
  to_utf8 = split_units;
  from_utf8 = join_units;
}

abbrev AreUnits : Text → Type 0
AreUnits = All (λ c. ltb c 65536 ≡ true)

formed-AreUnits : (b : Bool) (t : Text) → well_formed_from b t ≡ true → AreUnits t
unfolding well_formed_from
formed-AreUnits false [] h = tt
formed-AreUnits true [] h = tt
formed-AreUnits false (c ∷ t) h = elim (Bool-cases (leb 0xd800 c && leb c 0xdbff)) [
  | inl high ↦ (ground (arith, high), formed-AreUnits true t (ground (arith, h, high)))
  | inr other ↦ (ground (arith, h, other), formed-AreUnits false t (ground (arith, h, other)))
]
formed-AreUnits true (c ∷ t) h = (ground (arith, h), formed-AreUnits false t (ground (arith, h)))

split-AreBytes : (t : Text) → AreUnits t → AreBytes (split_units t)
split-AreBytes [] a = tt
split-AreBytes (c ∷ t) a = (ground (arith, a.0), (ground arith, split-AreBytes t a.1))

join-split : (t : Text) → join_units (split_units t) ≡ t
join-split [] = refl
join-split (c ∷ t) =
    let same : c / 256 * 256 + c % 256 ≡ c = omega arith in rw (same, join-split t) refl

all_zero : AreBytes (zeros ++ zeros)
all_zero = search

toy-Laws : Laws toy
toy-Laws = record {
  base64 = λ bytes are. refl;
  utf8_bytes = λ t formed. split-AreBytes t (formed-AreUnits false t formed);
  utf8 = λ t formed. join-split t;
  sealed_bytes = λ iv plaintext drawn are. (are, all_zero);
  tag_length = λ iv plaintext drawn are. refl;
  unseals = λ iv plaintext drawn are. refl;
}

abbrev iv : Bytes
iv = zeros ++ (7 ∷ 7 ∷ 7 ∷ 7 ∷ [])

iv-AreBytes : AreBytes iv
iv-AreBytes = search

decrypt-encrypt_example : decrypt toy (encrypt toy iv (codes "key")) ≡ plain (codes "key")
unfolding well_formed_from
decrypt-encrypt_example = decrypt-encrypt toy toy-Laws iv refl iv-AreBytes (codes "key") refl

-- A payload of another version, and an empty one.
unsupported :
    (decrypt toy (2 ∷ zeros) ≡ failed (unsupported_version (codes "2")))
    × (decrypt toy [] ≡ failed (unsupported_version (codes "undefined")))
unfolding decrypt decrypt_bytes to_text
unsupported = (refl, refl)
