-- ===== src/Network/HttpServer/Sends.antt =====
-- src/network/http_server.cpp: when a transaction that is sent over HTTP is accepted.
use personalblockchain.Prelude.{
  ◌≡◌, ℕ, List, map, keep, ◌++◌, ap, sym, ◌∙◌, append-nil, append_assoc, if◌then◌else◌, Bool, ◌&&◌,
  not, Bool-cases, ◌≢◌, ◌≤◌, ◌↔◌, ◌⊎◌, inl, inr, refl, true, false, some, none, [], ◌∷◌, Text,
  codes, is_empty, text_eq, text_eq_iff, length, arith,
}
use personalblockchain.Platform.{Platform}
use personalblockchain.Json.{Json, IsLawful}
use personalblockchain.Transaction.{Transaction}
use personalblockchain.Transaction.Serial
use personalblockchain.Wallet.{is_valid_wallet_address, address_from_public_key}
use personalblockchain.Blockchain.{get_balance_for_address}
use personalblockchain.Blockchain.Admission.{IsAdmissible, add_transaction-IsAdmissible}
use personalblockchain.Network.HttpServer.{HttpServer, Moment}
use personalblockchain.Network.HttpServer.Responses.{error_response}
use personalblockchain.Network.HttpServer.Pending.{wallet_exists}
use personalblockchain.Network.HttpServer.Sending.{
  SendRequest, transaction_of, with_signature, with_tx_aliases, tell_transaction, submit,
  check_tx_id, take_send_request,
}
use personalblockchain.Prelude.Map.{contains}
use personalblockchain.Blockchain.Admission.{waiting}
use personalblockchain.Network.Message.{Message, new_transaction}
use personalblockchain.Network.Node.{Peer, Node}
use personalblockchain.Network.Node.Peers.{
  remember, send, send_to_all, receivers, broadcast, broadcast_transaction,
}

is_empty_iff : (s : Text) → (is_empty s ≡ true) ↔ (s ≡ [])
is_empty_iff [] = ground arith
is_empty_iff (c ∷ s) = ground arith

-- Whether the peers hear of a transaction: the callback is set, and its identifier was not seen.
abbrev pub is_told : {J D : Type 0} → Transaction → Node J D → Bool
is_told tx n = n.blockchain.on_transaction_added && not (contains tx.tx_id n.seen_tx_ids)

-- What each connected peer is sent.
abbrev pub announcements : {J D : Type 0} → Json J → Transaction → Node J D → List (ℕ × Message J)
announcements json tx n =
    map (λ i. (i, record { type = new_transaction; payload = Serial.to_json json tx }))
      (keep (λ i. (n.sockets i).is_open) n.peers)

-- The server behind a transaction that was taken: it stands at the end of the mempool, and the
-- connected peers were sent it where they hear of it.
abbrev pub sent : {J D : Type 0} → Json J → Transaction → HttpServer J D → HttpServer J D
sent json tx s = record s {
  node = record s.node {
    blockchain = waiting s.node.blockchain tx;
    seen_tx_ids =
        if is_told tx s.node
        then remember 10000 tx.tx_id s.node.seen_tx_ids
        else s.node.seen_tx_ids;
    sent = if is_told tx s.node then s.node.sent ++ announcements json tx s.node else s.node.sent;
  };
}

send_to_all-sent :
    {J D : Type 0} (ids : List ℕ) (msg : Message J) (n : Node J D)
    → send_to_all ids msg n ≡ record n { sent = n.sent ++ map (λ i. (i, msg)) ids }
unfolding send
send_to_all-sent [] msg n = ap (λ xs. record n { sent = xs }) (sym (append-nil n.sent))
send_to_all-sent (i ∷ ids) msg n =
    send_to_all-sent ids msg (record n { sent = n.sent ++ (i, msg) ∷ [] })
    ∙ ap (λ xs. record n { sent = xs })
        (append_assoc n.sent ((i, msg) ∷ []) (map (λ i. (i, msg)) ids))

receivers-is_open :
    (sockets : ℕ → Peer) (ids : List ℕ)
    → keep (λ i. not false && (sockets i).is_open) ids ≡ keep (λ i. (sockets i).is_open) ids
receivers-is_open sockets [] = refl
receivers-is_open sockets (i ∷ ids) = ground (arith, receivers-is_open sockets ids)

-- The node behind the call of the chain and its callback.
tell_transaction-sent :
    {J D : Type 0} (json : Json J) (tx : Transaction) (s : HttpServer J D)
    → record s {
      node = tell_transaction json tx (record s.node { blockchain = waiting s.node.blockchain tx });
    }
      ≡ sent json tx s
unfolding tell_transaction broadcast_transaction broadcast
tell_transaction-sent {J} {D} json tx s =
    let msg : Message J = record { type = new_transaction; payload = Serial.to_json json tx } in
    let told_of : Node J D = record s.node {
      blockchain = waiting s.node.blockchain tx;
      seen_tx_ids = remember 10000 tx.tx_id s.node.seen_tx_ids;
    } in
    elim (Bool-cases s.node.blockchain.on_transaction_added) [
      | inl told ↦ elim (Bool-cases (contains tx.tx_id s.node.seen_tx_ids)) [
        | inl seen ↦ rw (told, seen) refl
        | inr new ↦
            let spread =
              ap (λ n. record s { node = n })
                (send_to_all-sent (receivers none told_of) msg told_of
                  ∙ ap (λ ids. record told_of { sent = told_of.sent ++ map (λ i. (i, msg)) ids })
                      (receivers-is_open s.node.sockets s.node.peers)) in
            rw (told, new) (rw told at spread)
      ]
      | inr silent ↦ rw silent refl
    ]

module _ {J : Type 0} (json : Json J) where
  -- A transaction with the three members that have another name for the same.
  abbrev pub aliased : Transaction → J
  aliased tx = json.set (codes "receiver") (json.text tx.to_address) (
      json.set (codes "sender") (json.text tx.from_address)
        (json.set (codes "transactionId") (json.text tx.tx_id) (Serial.to_json json tx)))

  pub with_tx_aliases-to_json :
      IsLawful json
      → (tx : Transaction) → with_tx_aliases json (Serial.to_json json tx) ≡ some (aliased tx)
  unfolding with_tx_aliases Serial.to_json text_eq
  with_tx_aliases-to_json laws tx =
      simp (laws.value_text-set_text, laws.value_text-set_ne, laws.value_number-set_ne)

module _ {J : Type 0} {D : Type 0} (P : Platform) (m : Moment) where
  -- What the handler asks of a request that was read.
  pub record IsSendable (r : SendRequest) (s : HttpServer J D) : Type 0 where
    pub from_given : is_empty r.from_address ≡ false
    pub to_given : is_empty r.to_address ≡ false
    pub key_given : is_empty r.sender_public_key ≡ false
    pub signature_given : is_empty r.signature ≡ false
    pub amount_positive : r.amount ≢ 0
    pub payload_short : length r.payload ≤ 2048
    pub from_valid : is_valid_wallet_address r.from_address ≡ true
    pub from_derived : r.from_address ≡ address_from_public_key P r.sender_public_key
    pub to_valid : is_valid_wallet_address r.to_address ≡ true
    pub to_exists : wallet_exists s r.to_address ≡ true
    pub covered : r.amount ≤ get_balance_for_address s.node.blockchain r.from_address
    pub tx_id_given : (r.tx_id ≡ []) ⊎ (r.tx_id ≡ (transaction_of P m.clock.system r).tx_id)
    pub admissible :
        IsAdmissible P m.clock.system s.node.blockchain
          (with_signature r.signature (transaction_of P m.clock.system r))

module _ {J : Type 0} {D : Type 0} (json : Json J) (laws : IsLawful json) (P : Platform)
    (m : Moment) where
  pub submit-IsAdmissible :
      (tx : Transaction) (s : HttpServer J D)
      → (IsAdmissible P m.clock.system s.node.blockchain tx
          × ((submit json P m tx s).0 ≡ sent json tx s)
          × ((submit json P m tx s).1.status_code ≡ 200))
        ⊎ ((¬ IsAdmissible P m.clock.system s.node.blockchain tx)
            × ((submit json P m tx s).0 ≡ s)
            × ((submit json P m tx s).1.status_code ≡ 400))
  unfolding submit error_response
  submit-IsAdmissible tx s =
      let built = with_tx_aliases-to_json json laws tx in
      elim (add_transaction-IsAdmissible P m.clock.system s.node.blockchain tx) [
        | inl (admissible, added) ↦
            inl (admissible, rw added (tell_transaction-sent json tx s), rw (added, built) refl)
        | inr (out, refused) ↦ inr (out, rw refused refl, rw refused refl)
      ]

  -- A request to send is answered 200 where it is sendable: its transaction is put at the end of the
  -- mempool, and, where the callback of the chain is set and the node has not seen the identifier,
  -- sent to every connected peer, and nothing else is changed but the version of the chain, the
  -- trace of its events and the identifiers that were seen. Otherwise it is refused with nothing
  -- changed. Both hold if the JSON library does as documented.
  pub take_send_request-IsSendable :
      (r : SendRequest) (s : HttpServer J D)
      → (IsSendable P m r s
          × ((take_send_request json P m r s).0
              ≡ sent json (with_signature r.signature (transaction_of P m.clock.system r)) s)
          × ((take_send_request json P m r s).1.status_code ≡ 200))
        ⊎ ((¬ IsSendable P m r s)
            × ((take_send_request json P m r s).0 ≡ s)
            × ((take_send_request json P m r s).1.status_code ≢ 200))
  unfolding take_send_request check_tx_id error_response
  take_send_request-IsSendable r s =
      let tx = with_signature r.signature (transaction_of P m.clock.system r) in
      let address = text_eq_iff r.from_address (address_from_public_key P r.sender_public_key) in
      let id = text_eq_iff r.tx_id (transaction_of P m.clock.system r).tx_id in
      let none_given = is_empty_iff r.tx_id in
      let submitted = submit-IsAdmissible tx s in ground arith
