-- ===== src/Platform.antt =====
-- What the node calls and does not implement: OpenSSL (src/crypto), and the parts of the C++
-- library whose result the standard leaves to the implementation.
use personalblockchain.Prelude.{ℕ, Bool, Option, Text}
use personalblockchain.Prelude.Int.{ℤ}

pub record Platform : Type 0 where
  -- The bytes that `EVP_DigestFinal_ex` returns for SHA-256 of a text.
  pub digest : Text → Text
  -- What `ss >> std::hex >> byte` leaves in `byte` for a pair that is not two hexadecimal digits.
  pub scan_hex : ℕ → ℕ → ℕ
  -- `ECDSA_do_verify` on hash bytes, signature bytes and the public key in hexadecimal; false where
  -- the signature or the key cannot be decoded.
  pub ecdsa_verify : Text → Text → Text → Bool
  -- `ECDSA_do_sign` on hash bytes and the private key in hexadecimal, with the signature in DER;
  -- nothing where a call fails and `sign` throws.
  pub ecdsa_sign : Text → Text → Option Text
  -- The compressed public key in hexadecimal, as `EC_POINT_point2hex` writes it, of a private key in
  -- hexadecimal; nothing where a call of OpenSSL fails.
  pub public_point : Text → Option Text
  -- `std::get_time` with "%Y-%m-%dT%H:%M:%S" and then `timegm`: seconds since 1970, nothing where
  -- the stream fails.
  pub get_time : Text → Option ℤ
  -- `std::put_time` with "%Y-%m-%dT%H:%M:%SZ" of the given seconds since 1970.
  pub put_time : ℕ → Text
