-- ===== src/Storage/Recovery.antt =====
-- A node that ends while it stores a block (src/storage/leveldb_manager.cpp, src/core/blockchain.cpp).
use personalblockchain.Prelude.{ℕ, none, some, List, [], ◌∷◌, ◌++◌}
use personalblockchain.Platform.{Platform}
use personalblockchain.Json.{Json}
use personalblockchain.Block.{Block}
use personalblockchain.Block.Serial.{to_json}
use personalblockchain.Blockchain.{Blockchain}
use personalblockchain.Storage.Files.{Slot, Faults, atomic_write}
use personalblockchain.Storage.Manager.{Disk, stored_values}

module _ {J : Type 0} (json : Json J) (P : Platform) where
  -- What the chain file and its other names can be when the process ends during `appendBlock`.
  abbrev pub append_states : Faults → ℕ → Disk → Block → List Slot
  append_states faults cut disk block = disk.chain ∷ elim (stored_values json P disk) [
    | none ↦ []
    | some values ↦
        (atomic_write faults cut
          (json.dump (some 2) (json.array (values ++ to_json json P block ∷ []))) disk.chain).trace
  ]
