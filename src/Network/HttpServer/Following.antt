-- ===== src/Network/HttpServer/Following.antt =====
-- src/network/http_server.cpp and src/core/blockchain.cpp: a client that does as the view of its wallet says.
use personalblockchain.Prelude.{
  ℕ, ◌^◌, ◌<◌, ◌≤◌, ◌≡◌, ◌≢◌, ◌∙◌, ap, refl, sym, inl, inr, false, true, List, [], ◌∷◌, Text,
  is_empty, length, text_eq, arith, Bool-cases,
}
use personalblockchain.Prelude.Int.{pos, ◌≤ℤ◌, ◌+ℤ◌, ◌-ℤ◌}
use personalblockchain.Platform.{Platform}
use personalblockchain.Json.{Json, IsLawful}
use personalblockchain.Transaction
use personalblockchain.Transaction.{
  Transaction, is_coinbase, is_expired, derive_address_v2, compute_tx_id,
}
use personalblockchain.State.{is_double_spend}
use personalblockchain.Wallet.{is_valid_wallet_address, address_from_public_key}
use personalblockchain.Wallet.Addresses.{is_valid-is_empty}
use personalblockchain.Blockchain.{
  Blockchain, pending_outgoing, pending_incoming, highest_nonce, can_afford, expected_nonce,
  is_in_mempool, get_balance_for_address, get_last_nonce_for_address,
}
use personalblockchain.Network.HttpServer.{HttpServer, Moment}
use personalblockchain.Network.HttpServer.Pending.{
  Pending, note_sent, note_received, count_pending, pending_of, pending_balance, next_nonce,
  wallet_exists,
}
use personalblockchain.Network.HttpServer.Sending.{
  SendRequest, transaction_of, with_signature, take_send_request,
}
use personalblockchain.Blockchain.Admission.{can_afford_iff}
use personalblockchain.Network.HttpServer.Sends.{IsSendable, take_send_request-IsSendable}

-- One loop over the mempool counts what the chain counts in three.
count_pending-loops :
    (address : Text) (txs : List Transaction) (t : Pending)
    → ((count_pending address t txs).sent ≡ pending_outgoing address t.sent txs)
      × ((count_pending address t txs).received ≡ pending_incoming address t.received txs)
      × ((count_pending address t txs).highest_nonce ≡ highest_nonce address t.highest_nonce txs)
unfolding count_pending pending_outgoing pending_incoming highest_nonce
count_pending-loops address [] t = (refl, refl, refl)
count_pending-loops address (tx ∷ txs) t =
    let later =
      count_pending-loops address txs (note_received address tx (note_sent address tx t)) in
    elim (Bool-cases (text_eq tx.from_address address)) [
      | inl from ↦ elim (Bool-cases (text_eq tx.to_address address)) [
        | inl to ↦ rw (count_pending, from, to) (rw (from, to) at later)
        | inr other ↦ rw (count_pending, from, other) (rw (from, other) at later)
      ]
      | inr not_from ↦ elim (Bool-cases (text_eq tx.to_address address)) [
        | inl to ↦ rw (count_pending, not_from, to) (rw (not_from, to) at later)
        | inr other ↦ rw (count_pending, not_from, other) (rw (not_from, other) at later)
      ]
    ]

module _ {D : Type 0} where
  -- The next nonce that the view of a wallet shows is the one that the chain asks for.
  pub next_nonce-expected_nonce :
      (bc : Blockchain D) (address : Text)
      → next_nonce (pending_of bc address) ≡ expected_nonce bc address
  unfolding next_nonce pending_of expected_nonce get_last_nonce_for_address
  next_nonce-expected_nonce bc address =
      let none_seen : Pending = record {
        sent = 0;
        received = 0;
        highest_nonce = get_last_nonce_for_address bc address;
      } in
      let same = count_pending-loops address bc.mempool none_seen in rw same.2 refl

  -- A payment of no more than the pending balance that the view shows is covered, where the balance
  -- and the two sums over the mempool are below 2^63.
  pub pending_balance-can_afford :
      (bc : Blockchain D) (tx : Transaction)
      → get_balance_for_address bc tx.from_address < 2 ^ 63
      → (pending_of bc tx.from_address).received < 2 ^ 63
      → (pending_of bc tx.from_address).sent < 2 ^ 63
      → pos tx.amount
        ≤ℤ pending_balance
            (get_balance_for_address bc tx.from_address)
            (pending_of bc tx.from_address)
      → can_afford bc tx ≡ true
  unfolding pending_balance pending_of can_afford get_balance_for_address ◌+ℤ◌ ◌-ℤ◌
  pending_balance-can_afford bc tx confirmed received sent covered =
      let none_seen : Pending = record {
        sent = 0;
        received = 0;
        highest_nonce = get_last_nonce_for_address bc tx.from_address;
      } in
      let same = count_pending-loops tx.from_address bc.mempool none_seen in ground arith

address_from_public_key-derive_address_v2 :
    (P : Platform) (key : Text) → address_from_public_key P key ≡ derive_address_v2 P key
unfolding address_from_public_key derive_address_v2
address_from_public_key-derive_address_v2 P key = refl

-- The fields of a request that its transaction has.
transaction_of-fields :
    (P : Platform) (now : ℕ) (r : SendRequest)
    → ((transaction_of P now r).from_address ≡ r.from_address)
      × ((transaction_of P now r).sender_public_key ≡ r.sender_public_key)
      × ((transaction_of P now r).amount ≡ r.amount)
      × ((transaction_of P now r).nonce ≡ r.nonce)
unfolding transaction_of compute_tx_id
transaction_of-fields P now r = (refl, refl, refl, refl)

module _ {J : Type 0} {D : Type 0} (P : Platform) where
  -- A request that does as the view of its wallet says: the sender is the address of its key, the
  -- nonce is the next one, the amount is at most the pending and the confirmed balance, which fit
  -- into 63 bits with the sums over the mempool, and the receiver exists.
  pub record Follows (r : SendRequest) (s : HttpServer J D) : Type 0 where
    pub signature_given : is_empty r.signature ≡ false
    pub key_given : is_empty r.sender_public_key ≡ false
    pub amount_positive : r.amount ≢ 0
    pub payload_short : length r.payload ≤ 2048
    pub from_derived : r.from_address ≡ address_from_public_key P r.sender_public_key
    pub from_valid : is_valid_wallet_address r.from_address ≡ true
    pub to_valid : is_valid_wallet_address r.to_address ≡ true
    pub to_exists : wallet_exists s r.to_address ≡ true
    pub next : r.nonce ≡ next_nonce (pending_of s.node.blockchain r.from_address)
    pub covered : r.amount ≤ get_balance_for_address s.node.blockchain r.from_address
    pub pending_covered :
        pos r.amount
        ≤ℤ pending_balance
            (get_balance_for_address s.node.blockchain r.from_address)
            (pending_of s.node.blockchain r.from_address)
    pub balance_fits : get_balance_for_address s.node.blockchain r.from_address < 2 ^ 63
    pub received_fits : (pending_of s.node.blockchain r.from_address).received < 2 ^ 63
    pub sent_fits : (pending_of s.node.blockchain r.from_address).sent < 2 ^ 63
    pub no_tx_id : r.tx_id ≡ []

module _ {J : Type 0} {D : Type 0} (P : Platform) (m : Moment) where
  -- A transaction that was signed by its sender just now, and that nobody has sent before.
  pub record IsNew (tx : Transaction) (s : HttpServer J D) : Type 0 where
    pub plain : is_coinbase tx ≡ false
    pub verified : Transaction.verify P tx ≡ true
    pub fresh : is_expired P m.clock.system tx 300 ≡ false
    pub unspent : is_double_spend s.node.blockchain.state_manager tx.tx_id ≡ false
    pub unseen : is_in_mempool s.node.blockchain.mempool tx.tx_id ≡ false

  Follows-IsSendable :
      (r : SendRequest) (s : HttpServer J D)
      → Follows P r s
      → IsNew (with_signature r.signature (transaction_of P m.clock.system r)) s
      → IsSendable P m r s
  Follows-IsSendable r s f new =
      let tx = with_signature r.signature (transaction_of P m.clock.system r) in
      let (from, key, amount, nonce) = transaction_of-fields P m.clock.system r in
      record {
        from_given = is_valid-is_empty r.from_address f.from_valid;
        to_given = is_valid-is_empty r.to_address f.to_valid;
        key_given = f.key_given;
        signature_given = f.signature_given;
        amount_positive = f.amount_positive;
        payload_short = f.payload_short;
        from_valid = f.from_valid;
        from_derived = f.from_derived;
        to_valid = f.to_valid;
        to_exists = f.to_exists;
        covered = f.covered;
        tx_id_given = inl f.no_tx_id;
        admissible = record {
          plain = new.plain;
          verified = new.verified;
          address =
              from
              ∙ f.from_derived
              ∙ ap (address_from_public_key P) (sym key)
              ∙ address_from_public_key-derive_address_v2 P tx.sender_public_key;
          affordable = (can_afford_iff s.node.blockchain tx).0 (
              pending_balance-can_afford s.node.blockchain tx (rw from f.balance_fits)
                (rw from f.received_fits) (rw from f.sent_fits)
                (rw (from, amount) f.pending_covered));
          next =
              nonce
              ∙ f.next
              ∙ next_nonce-expected_nonce s.node.blockchain r.from_address
              ∙ ap (expected_nonce s.node.blockchain) (sym from);
          fresh = new.fresh;
          unspent = new.unspent;
          unseen = new.unseen;
        };
      }

  -- A payment is answered 200 if its nonce is the next one that the view of the wallet shows, its
  -- amount is not 0 and at most the confirmed and the pending balance of that view, the confirmed
  -- balance and the two sums over the mempool are below 2^63, its sender is the address of its key,
  -- given with a signature that verifies, the receiver exists, the payload has at most 2048 bytes, no
  -- identifier is given, the transaction is no reward, is young enough, and has an identifier that is
  -- neither spent nor in the mempool, and if the JSON library does as documented.
  pub take_send_request-Follows :
      (json : Json J)
      → IsLawful json
      → (r : SendRequest) (s : HttpServer J D) → Follows P r s
      → IsNew (with_signature r.signature (transaction_of P m.clock.system r)) s
      → (take_send_request json P m r s).1.status_code ≡ 200
  take_send_request-Follows json laws r s f new =
      elim (take_send_request-IsSendable json laws P m r s) [
        | inl (sendable, after, ok) ↦ ok
        | inr (out, same, refused) ↦ absurd (out (Follows-IsSendable r s f new))
      ]
