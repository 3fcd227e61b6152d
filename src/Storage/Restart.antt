-- ===== src/Storage/Restart.antt =====
-- A node with its chain on a disk (src/core/blockchain.cpp over src/storage/leveldb_manager.cpp) that
-- is stopped and started again.
use personalblockchain.Prelude.{ℕ, ◌≡◌, refl, true, Option, some, List}
use personalblockchain.Platform.{Platform}
use personalblockchain.Json.{Json, IsLawful}
use personalblockchain.Block.{Block}
use personalblockchain.State.{empty_state, rebuild_state}
use personalblockchain.Consensus.{Engine}
use personalblockchain.Blockchain.{
  Blockchain, validate_chain_against_consensus, construct, load_chain, fresh,
}
use personalblockchain.Storage.Manager.{Disk, file_storage}
use personalblockchain.Storage.Laws.{IsStored, load_chain-IsStored}

module _ {J : Type 0} (json : Json J) (P : Platform) (engine : Option Engine)
    (laws : IsLawful json) where
  -- A node whose chain is stored comes back with the same chain and the same ledger, if the chain
  -- holds by the clock of the restart.
  pub construct-IsStored :
      (now fuel difficulty : ℕ) (disk : Disk) (chain : List Block)
      → IsStored json P disk chain
      → validate_chain_against_consensus P engine now chain ≡ true
      → (bc : Blockchain Disk) × (construct P engine
            (some (file_storage json P))
            now
            fuel
            difficulty
            disk
          ≡ some bc)
        × (bc.chain ≡ chain)
        × (bc.state_manager ≡ rebuild_state empty_state chain)
        × (bc.disk ≡ disk)
  unfolding construct
  construct-IsStored now fuel difficulty disk chain v ok =
      let (loaded, persisted) = load_chain-IsStored json P laws disk chain v in
      let same : load_chain P engine (some (file_storage json P)) disk ≡ chain =
        rw persisted loaded in
      (
        record (fresh P engine (some (file_storage json P)) difficulty disk) {
          chain = chain;
          state_manager = rebuild_state empty_state chain;
          chain_update_version = 1;
        },
        rw (same, construct, ok) refl,
        refl,
        refl,
        refl,
      )
