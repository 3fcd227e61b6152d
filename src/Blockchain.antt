-- ===== src/Blockchain.antt =====
-- src/core/blockchain.cpp and include/core/blockchain.h: the chain, the mempool and the ledger of a
-- node, and the calls that change them. The engine and the storage are the nullable pointers of the
-- class; the callbacks are a record of which are set and the trace of their calls. The mutex is left
-- out: every public call holds it from its first line to its last.
pub mod Defs
pub mod Calls
pub mod Outcomes
pub mod Decisions
pub mod Validity
pub mod Admission
pub mod Invariant
pub mod History
pub mod Sync
unfoldable pub use Defs.*
unfoldable pub use Calls.*
