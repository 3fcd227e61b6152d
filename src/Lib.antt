-- ===== src/Lib.antt =====
-- personalblockchain: a private proof-of-work blockchain node in C++.
--
-- The program. A `Blockchain` (src/core/blockchain.cpp) owns a list of blocks, a mempool of
-- transactions and a `StateManager`, the ledger (src/state/state_manager.cpp). Clients add signed
-- transactions, the node mines the front of the mempool into a block, and peers send blocks or whole
-- chains. A consensus engine (include/consensus) validates blocks, seals them, chooses between chains
-- and sets the difficulty. A storage manager (src/storage) keeps the chain on disk. A `Node`
-- (src/network/node.cpp) exchanges messages with peers, calls the chain for each, and keeps a
-- reputation, an address book and a table of connections; a `WalletManager` (src/wallet) makes keys
-- and logs users in. An `HttpServer` (src/network/http_server.cpp) is what clients see of all this, and
-- src/main.cpp reads the configuration and puts the parts together.
--
-- The files.
--   Platform.antt            what the node calls and does not implement: OpenSSL and the C++ library
--   Crypto.antt, Crypto/     src/crypto: hexadecimal, `sha256`, `sign`, `verify`
--   Transaction.antt, ...    src/transaction/transaction.cpp: identifier, signature, age
--   Block.antt, Block/       src/block/block.cpp: Merkle root, hash, nonce search, genesis
--   State.antt, State/       src/state/state_manager.cpp: balances, nonces, histories, spent ids
--   Consensus.antt, ...      include/consensus and src/consensus: the engine interface (the record
--                            `Engine`), proof of work, the proof-of-stake skeleton, the retarget
--   Blockchain.antt, ...     src/core/blockchain.cpp: Defs and Calls hold the state and the calls;
--                            Validity, Admission, Outcomes, Decisions, Invariant,
--                            History and Sync the theorems
--   Storage.antt, Storage/   src/storage/leveldb_manager.cpp: Files one write, call by call of the file
--                            system; Manager the public calls; Crash, Laws, Restart and Recovery the
--                            theorems
--   Wallet.antt, Wallet/     src/wallet: wallets, keys, addresses and login challenges
--   Network.antt, Network/   src/network: Message (message.cpp and the reading loop of peer.cpp),
--                            PeerScorer (peer_scorer.cpp), PeerManager, ConnectionManager,
--                            BootstrapManager, and Node: Peers, Dialing, Dedup, Learning,
--                            ChainMessages, Handlers, Timers, Starting and Stats hold node.cpp;
--                            Untouched, Safety, Quiet, Limits, Session, Repeats and Sync the theorems
--   Network/NodeIdentity     src/network/node_identity.cpp: the key file; Restart the theorem
--   Network/NetworkMetrics   src/network/network_metrics.cpp: counters
--   Network/HttpServer       src/network/http_server.cpp: Words and Requests the parser, Responses the
--                            printer, Wallets, Pending, Sending, Mining and Views the handlers, Routing the
--                            routes, Connections a connection from its bytes to its answer; Boot,
--                            Session, Safety, Untouched, Sends, Following, Refusals, Cooldown, Framing,
--                            Printing, Printed, Answers, Bodies and Logins the theorems
--   Main.antt, Main/         src/main.cpp: the configuration file; Arguments the command line; Peers
--                            the theorem
--   Json.antt                what the source asks of include/utils/json.hpp
--   Samples.antt, Samples/   runs and theorems at concrete inputs, over a small platform
--                            (Toy) and a small JSON library (Values)
--   Prelude.antt, Prelude/   shared helpers: texts as lists of codes, maps as sorted lists, integers
--
-- How the state corresponds. A class is a record with its fields in the source's order, a method a
-- function from the record to the new record and its result; names are the source's in snake case.
-- A `std::string` is the list of its bytes, a `std::map` a list in the order of its keys. Integers
-- of a fixed width are natural numbers with the wrap-around written out. `std::optional` results,
-- exceptions and null pointers are `Option`. Callbacks append to a trace of events. Clocks are
-- arguments, in nanoseconds since 1970. Locks are left out where a public call holds its mutex
-- from its first line to its last, and kept where one call takes a mutex twice (`Outcome`); a
-- history of calls is a sequence of steps (`Step`, `Reach`, `Session`).
--
-- Fuel. The nonce search of `mineBlock` has no bound in the source. Here it takes fuel and returns
-- nothing when that runs out; fuel above the smallest nonce that meets the target is enough. The
-- levels of the Merkle tree take the number of leaves as fuel, which is enough for any tree. A mining
-- request over HTTP takes its fuel from the `Moment` of the request, with all that the handler takes from
-- outside: clocks, what OpenSSL draws, the text of an exception.
--
-- Not modelled. OpenSSL, `std::get_time`, `std::put_time` and the arithmetic of `double` are
-- parameters (the records `Platform` and `Doubles`); what a theorem relies on is a hypothesis
-- (`IsSound`). The JSON library is the parameter `Json`, with `IsLawful` for its documented behaviour,
-- the shuffle and the order of the hash set of endpoints are functions that are passed in, and which
-- calls of the file system fail in a write and in the recovery are the arguments `Faults` and
-- `RecoveryFaults`; exceptions that leave a call of the storage are left out, so a mining request whose
-- block cannot be stored for one is not answered as the code answers it. The check of a chain reads the
-- clock once, where the source reads it for each block. The overflow of signed integers, which C++
-- leaves undefined, is left out, and so are the sockets with their write queues, threads and signals,
-- the locks of other calls than those named above, the waiting of timers, the times at which the
-- counters are refreshed, and the web front end. Requests are handled one behind the other.
pub mod Prelude
pub mod Platform
pub mod Json
pub mod Crypto
pub mod Transaction
pub mod Block
pub mod State
pub mod Consensus
pub mod Blockchain
pub mod Storage
pub mod Wallet
pub mod Network
mod Samples
pub mod Main
