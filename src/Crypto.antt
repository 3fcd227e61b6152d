-- ===== src/Crypto.antt =====
-- src/crypto/sha256.cpp and src/crypto/ecdsa.cpp round the calls of OpenSSL. The exceptions that
-- `sha256` throws when OpenSSL cannot allocate are left out.
pub mod Hex
use personalblockchain.Prelude.{
  ◌>>=◌, ℕ, ◌+◌, ◌-◌, ◌*◌, ◌/◌, ◌%◌, Bool, false, ◌&&◌, Option, none, some, [], ◌∷◌, Text, to_lower,
  leb, ltb, if◌then◌else◌,
}
use personalblockchain.Platform.{Platform}

-- One digit as `std::hex` writes it.
abbrev pub hex_digit : ℕ → ℕ
hex_digit n = if ltb n 10 then b'0' + n else b'a' + (n - 10)

-- `setw(2)` and `setfill('0')`: two digits for each byte.
unfoldable pub bytes_to_hex : Text → Text
bytes_to_hex [] = []
bytes_to_hex (b ∷ bs) = hex_digit (b / 16) ∷ hex_digit (b % 16) ∷ bytes_to_hex bs

abbrev pub hex_value : ℕ → Option ℕ
hex_value c =
    if leb b'0' c && leb c b'9'
    then some (c - b'0')
    else if leb b'a' c && leb c b'f'
    then some (c - b'a' + 10)
    else if leb b'A' c && leb c b'F'
    then some (c - b'A' + 10)
    else none

pub record KeyPair : Type 0 where
  pub private_key : Text
  pub public_key : Text

-- A new key pair from the two texts in hexadecimal that OpenSSL draws and writes: `BN_bn2hex` writes
-- no more digits than the number needs. Nothing where one of its calls fails.
unfoldable pub generate_key_pair : Option (Text × Text) → Option KeyPair
generate_key_pair drawn = do
  (private_hex, public_hex) ← drawn
  some (record { private_key = to_lower private_hex; public_key = to_lower public_hex })

module _ (P : Platform) where
  -- The byte that a pair of characters is read as.
  unfoldable pub read_pair : ℕ → ℕ → ℕ
  read_pair c d = elim (hex_value c) [
    | none ↦ P.scan_hex c d % 256
    | some h ↦ elim (hex_value d) [ none ↦ P.scan_hex c d % 256 | some l ↦ (h * 16 + l) % 256 ]
  ]

  -- A text of odd length throws.
  unfoldable pub hex_to_bytes : Text → Option Text
  hex_to_bytes [] = some []
  hex_to_bytes (c ∷ []) = none
  hex_to_bytes (c ∷ d ∷ s) = do bs ← hex_to_bytes s; some (read_pair c d ∷ bs)

  unfoldable pub sha256 : Text → Text
  sha256 s = bytes_to_hex (P.digest s)

  unfoldable pub double_sha256 : Text → Text
  unfolding sha256
  double_sha256 s = sha256 (sha256 s)

  unfoldable pub sign : Text → Text → Option Text
  sign message private_key = do
    hash_bytes ← hex_to_bytes (sha256 message)
    der ← P.ecdsa_sign hash_bytes private_key
    some (bytes_to_hex der)

  check_signature : Text → Text → Text → Option Bool
  check_signature message signature public_key = do
    hash_bytes ← hex_to_bytes (sha256 message)
    sig_bytes ← hex_to_bytes signature
    some (P.ecdsa_verify hash_bytes sig_bytes public_key)

  -- An exception inside is caught, and means false.
  unfoldable pub verify : Text → Text → Text → Bool
  unfolding check_signature
  verify message signature public_key = elim (check_signature message signature public_key) [
    | none ↦ false
    | some b ↦ b
  ]
