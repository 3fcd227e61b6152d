-- ===== src/Samples/Wallet.antt =====
-- A login at concrete inputs.
use personalblockchain.Prelude.{◌≡◌, ◌↔◌, refl, none, some, [], ◌∷◌, Text, codes, text_eq}
use personalblockchain.Prelude.Map.{lookup, insert}
use personalblockchain.Crypto.{bytes_to_hex, sha256}
use personalblockchain.Wallet.{
  ChallengeRecord, Challenges, address_from_public_key, create_login_challenge, token, verify_login,
}
use personalblockchain.Wallet.Logins.{
  IsGranted, verify_login_iff, Reach, starts, creates, verify_login-once,
}
use personalblockchain.Samples.Toy.{toy}

abbrev address : Text
address = address_from_public_key toy (codes "alice")

abbrev challenges : Challenges
challenges =
    (
      codes "challenge",
      record { address = address; public_key = codes "alice"; expires_at = 300_000_000_000 },
    )
    ∷ []

reached : Reach toy challenges
unfolding create_login_challenge address_from_public_key sha256 bytes_to_hex text_eq insert
reached =
    creates 0 (codes "challenge") address (codes "alice") (codes "challenge") challenges starts refl

verify_login_iff_example :
    ((verify_login toy 7 address (codes "alice") (codes "challenge") (codes "00") challenges).1
      ≡ some (token toy 7 address))
    ↔ ((r : ChallengeRecord) × (lookup (codes "challenge") challenges ≡ some r)
        × IsGranted toy 7 address (codes "alice") (codes "challenge") (codes "00") r)
verify_login_iff_example =
    verify_login_iff toy 7 address (codes "alice") (codes "challenge") (codes "00") challenges

verify_login-once_example :
    (verify_login toy 8 address
      (codes "alice")
      (codes "challenge")
      (codes "00")
      (verify_login toy 7 address (codes "alice") (codes "challenge") (codes "01") challenges).0).1
    ≡ none
verify_login-once_example =
    verify_login-once toy reached 7 8 address address (codes "alice") (codes "alice")
      (codes "challenge") (codes "01") (codes "00")
