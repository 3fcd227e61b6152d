-- ===== src/Transaction/Identity.antt =====
-- The identifier and the signature of src/transaction/transaction.cpp, from making to checking.
use personalblockchain.Prelude.{
  ◌≡◌, refl, ap, ◌≢◌, inl, inr, true, false, some, [], ◌∷◌, ◌++◌, Text, arith, length, Option-cases,
}
use mathlib.Core.List.{append_assoc}
use personalblockchain.Platform.{Platform}
use personalblockchain.Crypto
use personalblockchain.Crypto.Hex.{IsSound, verify-sign, sign-ne, length-sha256}
use personalblockchain.Transaction.{
  Transaction, is_coinbase, build_tx_core, derive_address_v2, compute_tx_id, sign, verify,
}
use personalblockchain.Transaction.Check.{verify-IsAuthentic}

-- The core does not cover the identifier and the signature.
build_tx_core-id :
    (tx : Transaction) (id sig : Text)
    → build_tx_core (record tx { tx_id = id; digital_signature = sig }) ≡ build_tx_core tx
unfolding build_tx_core
build_tx_core-id tx id sig = refl

-- The transaction that `sign` makes of one with no identifier.
abbrev with_signature : Platform → Transaction → Text → Transaction
with_signature P tx sig = record tx {
  tx_id = Crypto.sha256 P (build_tx_core tx);
  digital_signature = sig;
}

sign_unnamed :
    (P : Platform) (tx signed : Transaction) (private_key : Text)
    → tx.tx_id ≡ []
    → sign P tx private_key ≡ some signed
    → (sig : Text) × (Crypto.sign P (Crypto.sha256 P (build_tx_core tx)) private_key ≡ some sig)
      × (signed ≡ with_signature P tx sig)
unfolding sign compute_tx_id
sign_unnamed P tx signed private_key unnamed e =
    elim (Option-cases (Crypto.sign P (Crypto.sha256 P (build_tx_core tx)) private_key)) [
      | inl failed ↦ ground arith
      | inr (sig, made) ↦ (sig, made, ground arith)
    ]

-- Where OpenSSL is sound for the pair of keys, a transfer of a positive amount that has no
-- identifier yet, has a sender's key and names the address of that key as the sender, and is no
-- reward, passes `verify` once it has been signed with the private key.
pub verify-signed :
    (P : Platform) (tx signed : Transaction) (private_key : Text)
    → IsSound P private_key tx.sender_public_key
    → is_coinbase tx ≡ false
    → tx.amount ≢ 0
    → tx.sender_public_key ≢ []
    → tx.from_address ≡ derive_address_v2 P tx.sender_public_key
    → tx.tx_id ≡ []
    → sign P tx private_key ≡ some signed
    → verify P signed ≡ true
unfolding is_coinbase build_tx_core
verify-signed P tx signed private_key v plain amount sender from unnamed e =
    let (sig, made, same) = sign_unnamed P tx signed private_key unnamed e in
    let id = Crypto.sha256 P (build_tx_core tx) in
    rw same (
      (verify-IsAuthentic P (with_signature P tx sig)).1 (
        inr (record {
          amount_ne = amount;
          id_ne = λ none_left. absurd (
              omega
                (arith, ap length none_left, length-sha256 P v.digest_length (build_tx_core tx)));
          signature_ne = sign-ne P private_key tx.sender_public_key id sig v made;
          sender_ne = sender;
          address = inr (inl from);
          identity = refl;
          signed = verify-sign P private_key tx.sender_public_key id sig v made;
        })))

-- A payload that holds a '|' and the timestamp behind it can be cut at that place instead, with
-- the identifier and the signature as they are: `verify` has the same answer for both.
verify-recut :
    (P : Platform) (tx : Transaction) (head middle stamp : Text)
    → verify P (record tx { payload = head ++ b'|' ∷ middle; timestamp = stamp })
      ≡ verify P (record tx { payload = head; timestamp = middle ++ b'|' ∷ stamp })
unfolding verify is_coinbase build_tx_core
verify-recut P tx head middle stamp = rw (append_assoc head (b'|' ∷ middle) (b'|' ∷ stamp))
