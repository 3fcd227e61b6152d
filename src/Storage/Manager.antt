-- ===== src/Storage/Manager.antt =====
-- The public calls of `LevelDBManager` (src/storage/leveldb_manager.cpp), and the interface that the
-- chain asks of them.
use personalblockchain.Prelude.{
  ℕ, ◌+◌, ◌%◌, Bool, true, false, not, ◌||◌, Option, none, some, List, [], ◌∷◌, ◌++◌, map, Text,
  codes, is_empty, text_eq, length, last?, ltb, ◌==◌, u64_mod, if◌then◌else◌,
}
use personalblockchain.Prelude.Map.{Set}
use personalblockchain.Platform.{Platform}
use personalblockchain.Json.{Json, read_all}
use personalblockchain.Block.{Block}
use personalblockchain.Block.Serial.{to_json, from_json}
use personalblockchain.Blockchain.{Storage, is_chain_valid}
use personalblockchain.Storage.Files.{
  Slot, Faults, RecoveryFaults, no_faults, atomic_write, recover, read_file,
}

-- `chain.json` and `state.json`, each with its other names.
pub record Disk : Type 0 where
  pub chain : Slot
  pub state : Slot

-- The constructor, once the directory is there.
unfoldable pub open_manager : RecoveryFaults → RecoveryFaults → Disk → Disk
open_manager chain_faults state_faults disk = record {
  chain = recover chain_faults disk.chain;
  state = recover state_faults disk.state;
}

module _ {J : Type 0} (json : Json J) (P : Platform) where
  -- What the text of the chain file stands for: nothing where it is no array, or where a block
  -- throws.
  unfoldable pub read_chain : Text → Option (List Block)
  read_chain raw = elim (json.parse raw) [
    | none ↦ none
    | some j ↦ elim (json.elements j) [
      | none ↦ none
      | some values ↦ read_all (from_json json P) values
    ]
  ]

  unfoldable pub load_chain : Disk → List Block
  load_chain disk =
      let raw = read_file disk.chain in
      if is_empty raw then [] else elim (read_chain raw) [ none ↦ [] | some chain ↦ chain ]

  unfoldable pub write_chain : Faults → ℕ → Disk → List J → Disk × Bool
  write_chain faults cut disk values =
      let run = atomic_write faults cut (json.dump (some 2) (json.array values)) disk.chain in
      (record disk { chain = run.after }, run.result)

  unfoldable pub save_chain : Faults → ℕ → Disk → List Block → Disk × Bool
  save_chain faults cut disk chain = write_chain faults cut disk (map (to_json json P) chain)

  -- The array that the file holds, an empty one where there is no file; nothing where the call is
  -- aborted.
  unfoldable pub stored_values : Disk → Option (List J)
  stored_values disk =
      let raw = read_file disk.chain in
      if is_empty raw
      then some []
      else elim (json.parse raw) [ none ↦ none | some j ↦ json.elements j ]

  -- The test of the block against the last one that is stored; nothing where that one throws.
  unfoldable pub extends : List J → Block → Option Bool
  extends values block = elim (last? values) [
    | none ↦ some true
    | some value ↦ elim (from_json json P value) [
      | none ↦ none
      | some tip ↦ some (
          not (
            not (block.index == (tip.index + 1) % u64_mod)
            || not (text_eq block.previous_hash tip.hash)))
    ]
  ]

  -- Nothing where an exception leaves the call.
  unfoldable pub append_block : Faults → ℕ → Disk → Block → Option (Disk × Bool)
  append_block faults cut disk block = elim (stored_values disk) [
    | none ↦ some (disk, false)
    | some values ↦ elim (extends values block) [
      | none ↦ none
      | some false ↦ some (disk, false)
      | some true ↦ some (write_chain faults cut disk (values ++ to_json json P block ∷ []))
    ]
  ]

  unfoldable pub save_state : Faults → ℕ → Disk → Set → Disk × Bool
  save_state faults cut disk spent =
      let j = json.set (codes "spentTxIDs") (json.array (map json.text spent)) json.object in
      let run = atomic_write faults cut (json.dump (some 2) j) disk.state in
      (record disk { state = run.after }, run.result)

  unfoldable pub load_state : Disk → Bool
  load_state disk =
      let raw = read_file disk.state in
      if is_empty raw
      then false
      else elim (json.parse raw) [ none ↦ false | some j ↦ json.contains j (codes "spentTxIDs") ]

  unfoldable pub has_persisted_chain : Disk → Bool
  has_persisted_chain disk = elim disk.chain.file [ none ↦ false | some raw ↦ ltb 2 (length raw) ]

  unfoldable pub validate_chain_integrity : List Block → Bool
  validate_chain_integrity chain = is_chain_valid P chain

  -- A disk on which no call fails. The chain ignores what the calls return. An exception that leaves
  -- `append_block` is left out here, like in the chain: the disk is then as it was.
  abbrev pub file_storage : Storage Disk
  file_storage = record {
    has_persisted_chain = has_persisted_chain;
    load_chain = load_chain;
    save_chain = λ disk chain. (save_chain no_faults 0 disk chain).0;
    append_block = λ disk block. elim (append_block no_faults 0 disk block) [
      | none ↦ disk
      | some written ↦ written.0
    ];
    save_state = λ disk spent. (save_state no_faults 0 disk spent).0;
  }
