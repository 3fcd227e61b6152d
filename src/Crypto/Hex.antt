-- ===== src/Crypto/Hex.antt =====
-- Hexadecimal texts of src/crypto/sha256.cpp and src/crypto/ecdsa.cpp: reading gives back what was
-- written.
use personalblockchain.Prelude.{
  ℕ, ◌*◌, ◌/◌, ◌%◌, ◌<◌, ◌≡◌, refl, ◌≢◌, true, some, [], ◌∷◌, Text, arith, length, inl, inr,
  Option-cases,
}
use personalblockchain.Platform.{Platform}
use personalblockchain.Crypto.{
  hex_digit, hex_value, bytes_to_hex, read_pair, hex_to_bytes, sha256, sign, verify,
}

abbrev pub AreBytes : Text → Type 0
AreBytes [] = Unit {0}
AreBytes (b ∷ bs) = (b < 256) × AreBytes bs

hex_value-hex_digit : (n : ℕ) → n < 16 → hex_value (hex_digit n) ≡ some n
hex_value-hex_digit n h = ground arith

module _ (P : Platform) where
  read_pair-hex_digit :
      (b : ℕ) → b < 256 → read_pair P (hex_digit (b / 16)) (hex_digit (b % 16)) ≡ b
  unfolding read_pair
  read_pair-hex_digit b h =
      ground (arith, hex_value-hex_digit (b / 16), hex_value-hex_digit (b % 16))

  -- Reading the hexadecimal form of any list of bytes gives the bytes back.
  pub hex_to_bytes-bytes_to_hex :
      (bs : Text) → AreBytes bs → hex_to_bytes P (bytes_to_hex bs) ≡ some bs
  unfolding hex_to_bytes bytes_to_hex
  hex_to_bytes-bytes_to_hex [] h = refl
  hex_to_bytes-bytes_to_hex (b ∷ bs) h =
      ground (arith, read_pair-hex_digit b h.0, hex_to_bytes-bytes_to_hex bs h.1)

pub length-bytes_to_hex : (bs : Text) → length (bytes_to_hex bs) ≡ 2 * length bs
unfolding bytes_to_hex
length-bytes_to_hex [] = omega arith
length-bytes_to_hex (b ∷ bs) = omega (arith, length-bytes_to_hex bs)

-- What the node relies on in OpenSSL: SHA-256 gives 32 bytes, and a signature that was made with
-- a private key passes under the public key of the pair.
pub record IsSound (P : Platform) (private_key public_key : Text) : Type 0 where
  pub digest_length : (s : Text) → length (P.digest s) ≡ 32
  pub digest_bytes : (s : Text) → AreBytes (P.digest s)
  pub der_bytes : (h k sig : Text) → P.ecdsa_sign h k ≡ some sig → AreBytes sig
  pub der_ne : (h k sig : Text) → P.ecdsa_sign h k ≡ some sig → sig ≢ []
  pub signed_verifies :
      (h sig : Text)
      → P.ecdsa_sign h private_key ≡ some sig
      → P.ecdsa_verify h sig public_key ≡ true

-- Where OpenSSL is sound for the pair of keys, a signature that `sign` returns for the private key
-- is accepted by `verify` for the same message and the public key.
pub verify-sign :
    (P : Platform) (private_key public_key message sig : Text)
    → IsSound P private_key public_key
    → sign P message private_key ≡ some sig
    → verify P message sig public_key ≡ true
unfolding sign verify sha256
verify-sign P private_key public_key message sig v e =
    let bytes = hex_to_bytes-bytes_to_hex P (P.digest message) (v.digest_bytes message) in
    elim (Option-cases (P.ecdsa_sign (P.digest message) private_key)) [
      | inl failed ↦ ground arith
      | inr (der, made) ↦ ground (
        arith,
        hex_to_bytes-bytes_to_hex P der (v.der_bytes (P.digest message) private_key der made),
        v.signed_verifies (P.digest message) der made,
      )
    ]

-- A signature that `sign` returns is not the empty text.
pub sign-ne :
    (P : Platform) (private_key public_key message sig : Text)
    → IsSound P private_key public_key
    → sign P message private_key ≡ some sig
    → sig ≢ []
unfolding sign sha256 bytes_to_hex
sign-ne P private_key public_key message sig v e =
    let bytes = hex_to_bytes-bytes_to_hex P (P.digest message) (v.digest_bytes message) in
    elim (Option-cases (P.ecdsa_sign (P.digest message) private_key)) [
      | inl failed ↦ ground arith
      | inr (der, made) ↦ ground (arith, v.der_ne (P.digest message) private_key der made)
    ]

-- The hash in hexadecimal has 64 characters.
pub length-sha256 :
    (P : Platform) → ((s : Text) → length (P.digest s) ≡ 32) → (s : Text) → length (sha256 P s) ≡ 64
unfolding sha256
length-sha256 P h s = omega (arith, length-bytes_to_hex (P.digest s), h s)
