-- ===== src/Wallet/Addresses.antt =====
-- Addresses (src/wallet/wallet_manager.cpp).
use personalblockchain.Prelude.{
  ◌≡◌, ℕ, ◌/◌, ◌%◌, ◌<◌, refl, true, false, is_empty, all, [], ◌∷◌, Text, text_eq, length, take,
  length-take, all-take, arith,
}
use personalblockchain.Platform.{Platform}
use personalblockchain.Crypto.{bytes_to_hex, sha256, hex_digit}
use personalblockchain.Crypto.Hex.{AreBytes, length-bytes_to_hex}
use personalblockchain.Wallet.{is_hex_digit, is_valid_wallet_address, address_from_public_key}

is_hex_digit-hex_digit : (n : ℕ) → n < 16 → is_hex_digit (hex_digit n) ≡ true
is_hex_digit-hex_digit n h = ground arith

all-bytes_to_hex : (bs : Text) → AreBytes bs → all is_hex_digit (bytes_to_hex bs) ≡ true
unfolding bytes_to_hex
all-bytes_to_hex [] h = refl
all-bytes_to_hex (b ∷ bs) (byte, rest) =
    let high = is_hex_digit-hex_digit (b / 16) (omega arith) in
    let low = is_hex_digit-hex_digit (b % 16) (omega arith) in
    rw (high, low) (all-bytes_to_hex bs rest)

-- The address of any public key has the form that addresses are tested for, where SHA-256 gives 32
-- bytes.
pub address_from_public_key-is_valid :
    (P : Platform)
    → ((s : Text) → length (P.digest s) ≡ 32)
    → ((s : Text) → AreBytes (P.digest s))
    → (public_key : Text) → is_valid_wallet_address (address_from_public_key P public_key) ≡ true
unfolding is_valid_wallet_address address_from_public_key text_eq sha256
address_from_public_key-is_valid P size bytes public_key =
    let digest = P.digest public_key in
    let long = length-bytes_to_hex digest in
    let short = length-take 40 (bytes_to_hex digest) in
    let forty : length (take 40 (bytes_to_hex digest)) ≡ 40 = omega (arith, size public_key) in
    let hex =
      all-take is_hex_digit 40 (bytes_to_hex digest) (all-bytes_to_hex digest (bytes public_key)) in
    rw (forty, hex) refl

pub is_valid-is_empty :
    (address : Text) → is_valid_wallet_address address ≡ true → is_empty address ≡ false
unfolding is_valid_wallet_address text_eq
is_valid-is_empty [] valid = absurd (ground arith)
is_valid-is_empty (c ∷ s) valid = refl
