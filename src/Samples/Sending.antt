-- ===== src/Samples/Sending.antt =====
-- Mining and sending over HTTP at concrete inputs.
use personalblockchain.Prelude.{
  ◌≡◌, ◌≢◌, ◌⊎◌, refl, true, none, some, List, [], Text, codes, text_eq, text_lt, decimal, arith,
}
use personalblockchain.Prelude.Int.{◌+ℤ◌, ◌-ℤ◌}
use personalblockchain.Prelude.Map.{lookup, insert, add, contains}
use personalblockchain.Crypto
use personalblockchain.Crypto.{bytes_to_hex, sha256, hex_to_bytes, read_pair, generate_key_pair}
use personalblockchain.Transaction
use personalblockchain.Transaction.{
  Transaction, is_coinbase, build_tx_core, derive_address_v2, derive_address_legacy, compute_tx_id,
  current_timestamp, is_expired, age_seconds,
}
use personalblockchain.Block.{
  leaf, next_level, build_tree, root_of, compute_merkle_root, calculate_hash, meets_target,
  search_nonce, mine_block, new_block,
}
use personalblockchain.State.{
  record_transaction, credit, debit, apply_transaction, apply_transactions, apply_block_state,
  get_balance, get_last_nonce, is_double_spend,
}
use personalblockchain.Consensus.Adjuster.{
  calculate_next_difficulty, should_retarget, parse_timestamp,
}
use personalblockchain.Consensus.Pow
use personalblockchain.Blockchain.{
  mine_pending_transactions, append_mined, make_coinbase, apply_to_ledger, expected_nonce,
  is_in_mempool, get_balance_for_address, get_last_nonce_for_address,
}
use personalblockchain.Wallet.{is_valid_wallet_address, address_from_public_key}
use personalblockchain.Network.NetworkMetrics.{new_metrics}
use personalblockchain.Network.HttpServer.{HttpServer, Moment, new_http_server}
use personalblockchain.Network.HttpServer.Responses.{HttpResponse, success}
use personalblockchain.Network.HttpServer.Wallets.{know}
use personalblockchain.Network.HttpServer.Pending.{
  Pending, count_pending, pending_of, pending_balance, next_nonce, wallet_exists,
}
use personalblockchain.Network.HttpServer.Sending.{
  SendRequest, transaction_of, with_signature, take_send_request,
}
use personalblockchain.Network.HttpServer.Mining.{tell_block, mine_for, try_mine, mined_body}
use personalblockchain.Network.HttpServer.Session.{starts}
use personalblockchain.Network.HttpServer.Sends.{IsSendable, sent, take_send_request-IsSendable}
use personalblockchain.Network.HttpServer.Following.{
  Follows, IsNew, next_nonce-expected_nonce, take_send_request-Follows,
}
use personalblockchain.Network.HttpServer.Cooldown.{try_mine-cooldown}
use personalblockchain.Samples.Toy.{toy}
use personalblockchain.Samples.Values.{Value, values, values-IsLawful}
use personalblockchain.Samples.Texts.{alice_address}
use personalblockchain.Samples.Chain.{engine, storage, start, mined, mined-start}
use personalblockchain.Samples.Node.{node}

abbrev pub same : List Text → List Text
same xs = xs

abbrev pub moment : Moment
moment = record {
  clock = record { steady = 7_000_000_000; system = 7_000_000_000 };
  later = 7_000_000_000;
  sealed = 8_000_000_000;
  fuel = 1000;
  key_pair = some (codes "C0FFEE", codes "02AB");
  random_challenge = codes "challenge";
  what = codes "what";
  metrics = new_metrics 0;
}

abbrev pub server : HttpServer Value (Unit {0})
server = new_http_server node

-- The server once it has mined a block for alice.
abbrev after_mining : HttpServer Value (Unit {0})
after_mining = know alice_address (record server {
  node = tell_block values toy mined.1 (record node { blockchain = mined.0 });
  last_mine_at = insert alice_address 8_000_000_000 server.last_mine_at;
})

mined_once :
    mine_for values toy engine storage moment alice_address server
    ≡ some (after_mining, success values (mined_body values toy 0 mined.0 mined.1 alice_address))
unfolding mine_for start new_http_server
mined_once = rw (mine_for, mined-start) refl

abbrev pub soon : Moment
soon = record moment { clock = record { steady = 37_999_999_999; system = 38_000_000_000 } }

try_mine-cooldown_example :
    (refusal : HttpResponse) × (try_mine values toy engine storage soon alice_address after_mining
      ≡ some (after_mining, refusal))
    × (refusal.status_code ≢ 200)
try_mine-cooldown_example =
    try_mine-cooldown values toy engine storage same same moment soon alice_address server
      after_mining (success values (mined_body values toy 0 mined.0 mined.1 alice_address))
      mined_once starts (omega arith)

next_nonce-expected_nonce_example :
    next_nonce (pending_of mined.0 alice_address) ≡ expected_nonce mined.0 alice_address
next_nonce-expected_nonce_example = next_nonce-expected_nonce mined.0 alice_address

abbrev bob_address : Text
bob_address = address_from_public_key toy (codes "bob")

-- A server whose chain gives 50 to alice, and that knows bob.
abbrev rich : HttpServer Value (Unit {0})
rich = record server {
  node = record node { blockchain = mined.0 };
  known_addresses = add bob_address server.known_addresses;
}

abbrev at_105 : Moment
at_105 = record moment { clock = record { steady = 105_000_000_000; system = 105_000_000_000 } }

-- 5 from alice to bob, without its signature.
abbrev unsigned : SendRequest
unsigned = record {
  from_address = alice_address;
  to_address = bob_address;
  sender_public_key = codes "alice";
  receiver_public_key = [];
  payload = codes "rent";
  timestamp = codes "100";
  tx_id = [];
  signature = [];
  amount = 5;
  nonce = 1;
}

unfoldable signature : Text
unfolding transaction_of compute_tx_id build_tx_core decimal sha256 bytes_to_hex Crypto.sign
    hex_to_bytes read_pair text_eq derive_address_v2
signature =
    elim (Crypto.sign toy (transaction_of toy 105_000_000_000 unsigned).tx_id (codes "secret")) [
      | none ↦ []
      | some sig ↦ sig
    ]

abbrev request : SendRequest
request = record unsigned { signature = signature }

balance_is : get_balance_for_address mined.0 alice_address ≡ 50
unfolding get_balance_for_address get_balance start mined mine_pending_transactions mine_block
    search_nonce compute_merkle_root calculate_hash meets_target leaf next_level build_tree root_of
    sha256 bytes_to_hex decimal text_eq apply_block_state apply_transactions apply_transaction
    credit debit record_transaction is_coinbase compute_tx_id build_tx_core lookup insert new_block
    append_mined apply_to_ledger make_coinbase calculate_next_difficulty should_retarget
    parse_timestamp current_timestamp Pow.seal_block text_lt derive_address_v2
balance_is = refl

abbrev none_pending : Pending
none_pending = record { sent = 0; received = 0; highest_nonce = 0 }

pending_is : pending_of mined.0 alice_address ≡ none_pending
unfolding pending_of count_pending get_last_nonce_for_address get_last_nonce start mined
    mine_pending_transactions mine_block search_nonce compute_merkle_root calculate_hash
    meets_target leaf next_level build_tree root_of sha256 bytes_to_hex decimal text_eq
    apply_block_state apply_transactions apply_transaction credit debit record_transaction
    is_coinbase compute_tx_id build_tx_core lookup insert new_block append_mined apply_to_ledger
    make_coinbase calculate_next_difficulty should_retarget parse_timestamp current_timestamp
    Pow.seal_block text_lt derive_address_v2
pending_is = refl

bob_known : wallet_exists rich bob_address ≡ true
unfolding wallet_exists is_valid_wallet_address address_from_public_key add contains new_http_server
    sha256 bytes_to_hex text_eq text_lt
bob_known = refl

request-Follows : Follows toy request rich
unfolding next_nonce pending_balance ◌+ℤ◌ ◌-ℤ◌ signature transaction_of compute_tx_id build_tx_core
    decimal sha256 bytes_to_hex Crypto.sign hex_to_bytes read_pair text_eq derive_address_v2
    address_from_public_key is_valid_wallet_address new_http_server
request-Follows = record {
  signature_given = refl;
  key_given = refl;
  amount_positive = λ e. cc;
  payload_short = omega arith;
  from_derived = refl;
  from_valid = refl;
  to_valid = refl;
  to_exists = bob_known;
  next = rw pending_is refl;
  covered = rw balance_is (omega arith);
  pending_covered = rw (balance_is, pending_is) (omega arith);
  balance_fits = rw balance_is (omega arith);
  received_fits = rw pending_is (omega arith);
  sent_fits = rw pending_is (omega arith);
  no_tx_id = refl;
}

abbrev payment : Transaction
payment = with_signature signature (transaction_of toy 105_000_000_000 request)

payment-IsNew : IsNew toy at_105 payment rich
unfolding signature transaction_of is_expired age_seconds Transaction.verify Crypto.verify
    Crypto.sign hex_to_bytes read_pair is_double_spend is_in_mempool contains get_balance
    address_from_public_key start mined mine_pending_transactions mine_block search_nonce
    compute_merkle_root calculate_hash meets_target leaf next_level build_tree root_of sha256
    bytes_to_hex decimal text_eq apply_block_state apply_transactions apply_transaction credit debit
    record_transaction is_coinbase compute_tx_id build_tx_core lookup insert new_block append_mined
    apply_to_ledger make_coinbase calculate_next_difficulty should_retarget parse_timestamp
    current_timestamp Pow.seal_block text_lt derive_address_v2
payment-IsNew = record {
  plain = refl;
  verified = refl;
  fresh = refl;
  unspent = refl;
  unseen = refl;
}

take_send_request-Follows_example :
    (take_send_request values toy at_105 request rich).1.status_code ≡ 200
take_send_request-Follows_example =
    take_send_request-Follows toy at_105 values values-IsLawful request rich request-Follows
      payment-IsNew

take_send_request-IsSendable_example :
    (IsSendable toy at_105 request rich
      × ((take_send_request values toy at_105 request rich).0 ≡ sent values payment rich)
      × ((take_send_request values toy at_105 request rich).1.status_code ≡ 200))
    ⊎ ((¬ IsSendable toy at_105 request rich)
        × ((take_send_request values toy at_105 request rich).0 ≡ rich)
        × ((take_send_request values toy at_105 request rich).1.status_code ≢ 200))
take_send_request-IsSendable_example =
    take_send_request-IsSendable values values-IsLawful toy at_105 request rich
