-- ===== src/Samples/Texts.antt =====
-- Hashes, signatures and transactions at concrete inputs.
use personalblockchain.Prelude.{
  ◌≡◌, refl, ◌↔◌, ◌⊎◌, true, false, none, some, [], ◌∷◌, Text, codes, arith, text_eq, decimal,
}
use personalblockchain.Crypto
use personalblockchain.Crypto.{bytes_to_hex, hex_to_bytes, sha256}
use personalblockchain.Transaction
use personalblockchain.Transaction.{
  Transaction, empty_transaction, is_coinbase, build_tx_core, derive_address_v2,
  derive_address_legacy, sign, verify, is_expired, age_seconds,
}
use personalblockchain.Transaction.Check.{IsAuthentic, verify-IsAuthentic}
use personalblockchain.Transaction.Identity.{verify-signed}
use personalblockchain.Samples.Toy.{toy, toy-IsSound}

hex_sample : bytes_to_hex (0 ∷ 171 ∷ 255 ∷ []) ≡ codes "00abff"
unfolding bytes_to_hex
hex_sample = refl

-- The signature of the message "pay".
abbrev pay_signature : Text
pay_signature = codes "57"

pay_signed : Crypto.sign toy (codes "pay") (codes "secret") ≡ some pay_signature
unfolding Crypto.sign hex_to_bytes bytes_to_hex Crypto.read_pair sha256
pay_signed = refl

abbrev pub alice_address : Text
alice_address = derive_address_v2 toy (codes "alice")

-- A payment of 5 from alice to bob, not signed yet.
abbrev pub payment : Transaction
payment = record empty_transaction {
  sender_public_key = codes "alice";
  from_address = alice_address;
  to_address = codes "bob";
  amount = 5;
  nonce = 1;
  payload = codes "rent";
  timestamp = codes "100";
}

-- What `sign` makes of it.
unfoldable pub signed_payment : Transaction
unfolding sign Crypto.sign hex_to_bytes bytes_to_hex Crypto.read_pair sha256
    Transaction.compute_tx_id build_tx_core derive_address_v2 decimal
signed_payment = elim (sign toy payment (codes "secret")) [ none ↦ payment | some tx ↦ tx ]

payment_signed : sign toy payment (codes "secret") ≡ some signed_payment
unfolding signed_payment
payment_signed = refl

payment_plain : is_coinbase payment ≡ false
unfolding is_coinbase text_eq
payment_plain = refl

verify-signed_example : verify toy signed_payment ≡ true
verify-signed_example =
    verify-signed toy payment signed_payment (codes "secret") toy-IsSound payment_plain
      (omega arith) (λ e. cc) refl refl payment_signed

verify-IsAuthentic_example :
    (verify toy signed_payment ≡ true)
    ↔ ((is_coinbase signed_payment ≡ true) ⊎ IsAuthentic toy signed_payment)
verify-IsAuthentic_example = verify-IsAuthentic toy signed_payment

expired : is_expired toy 401_000_000_000 payment 300 ≡ true
unfolding is_expired age_seconds
expired = refl

not_expired : is_expired toy 400_000_000_000 payment 300 ≡ false
unfolding is_expired age_seconds
not_expired = refl
